-- ===== src/Tests/Counters.antt =====
-- A counter store in memory and a layout of markers, which meet what the limiter relies on.
use Prim.Native.Char.{code}
use nice_agent.Prelude.{
  ℕ, zero, suc, ℤ, pos, negsuc, ◌+ℤ◌, ◌-ℤ◌, String, Char, Bool, true, false, Option, none, some,
  ◌≡◌, refl, sym, subst, ◌==◌, if◌then◌else◌, is_some, eqb, arith,
}
use nice_agent.Quota.Counters.{CounterStore, View, IsCounterStore, at}
use nice_agent.Quota.Marker.{RunMarker, MarkerLibrary, zero_marker}
use nice_agent.Quota.Released.{IsMarkerLibrary}

pub record Memory : Type 0 where
  pub counters : String → ℤ
  pub texts : String → Option String

abbrev pub empty_memory : Memory
empty_memory = record { counters = λ k. pos 0; texts = λ k. none }

abbrev added : String → ℤ → Memory → Option ℤ × Memory
added k n s =
    let t = record s { counters = λ j. s.counters j +ℤ at k n j } in (some (t.counters k), t)

abbrev taken : String → ℤ → Memory → Option ℤ × Memory
taken k n s =
    let t = record s { counters = λ j. s.counters j -ℤ at k n j } in (some (t.counters k), t)

abbrev set_if_new : String → String → Memory → Option Bool × Memory
set_if_new k v s = elim (s.texts k) [
  | some old ↦ (some false, s)
  | none ↦ (some true, record s { texts = λ j. if k == j then some v else s.texts j })
]

abbrev pub memory_store : CounterStore Memory
memory_store = record {
  incr = λ k. added k (pos 1);
  decr = λ k. taken k (pos 1);
  incr_by = added;
  decr_by = taken;
  expire = λ k ttl s. (true, s);
  set_nx = λ k v ttl. set_if_new k v;
  get = λ k s. (some (s.texts k), s);
  del = λ k s. (
    some (if is_some (s.texts k) then 1 else 0),
    record s { texts = λ j. if k == j then none else s.texts j },
  );
}

abbrev pub memory_view : View Memory
memory_view = record { count = λ s. s.counters; text = λ s. s.texts }

-- A key without a text takes one.
abbrev Wrote : String → String → Memory → Option Bool × Memory → Type 0
Wrote k v s answer =
    (answer.0 ≡ some true)
    × ((j : String) → answer.1.counters j ≡ s.counters j)
    × ((j : String) → answer.1.texts j ≡ (if k == j then some v else s.texts j))

set_new : (k v : String) (s : Memory) → s.texts k ≡ none → Wrote k v s (set_if_new k v s)
set_new k v s e =
    let t = record s { texts = λ j. if k == j then some v else s.texts j } in
    let set : set_if_new k v s ≡ (some true, t) = ground arith in
    subst (Wrote k v s) (sym set) (refl, λ j. refl, λ j. refl)

pub memory_law : IsCounterStore "quota" memory_store memory_view
memory_law = record {
  incr_lem = λ k s c. (
    s.counters k +ℤ at k (pos 1) k,
    refl,
    record { new = refl; counts = λ j. refl; texts = λ j. refl },
  );
  decr_lem = λ k s c. (refl, record { counts = λ j. refl; texts = λ j. refl });
  incr_by_lem = λ k n s c. (
    s.counters k +ℤ at k n k,
    refl,
    record { new = refl; counts = λ j. refl; texts = λ j. refl },
  );
  decr_by_lem = λ k n s c. (refl, record { counts = λ j. refl; texts = λ j. refl });
  expire_lem = λ k ttl s c. (refl, λ j. refl, λ j. refl);
  set_nx_lem = λ k v ttl s c e. set_new k v s e;
  get_lem = λ k s c. (refl, λ j. refl, λ j. refl);
  del_lem = λ k s c. (refl, λ j. refl, λ j. refl);
}

-- A number in ticks, closed by a stop.
ticks : ℕ → String → String
ticks zero rest = String.◌∷◌ ";" rest
ticks (suc n) rest = String.◌∷◌ "i" (ticks n rest)

read_ticks : String → ℕ × String
read_ticks String.[] = (0, "")
read_ticks (String.◌∷◌ c s) =
    let rest = read_ticks s in if eqb (code c) 105 then (suc rest.0, rest.1) else (0, s)

read_ticks-ticks : (n : ℕ) (rest : String) → read_ticks (ticks n rest) ≡ (n, rest)
unfolding ticks read_ticks
read_ticks-ticks zero rest = refl
read_ticks-ticks (suc n) rest = rw (read_ticks-ticks n rest) refl

int_text : ℤ → String → String
int_text (pos n) key = String.◌∷◌ "+" (ticks n key)
int_text (negsuc n) key = String.◌∷◌ "-" (ticks n key)

flag : Bool → Char
flag true = "1"
flag false = "0"

read_int : Bool → String → RunMarker × Bool
read_int active String.[] = (zero_marker, false)
read_int active (String.◌∷◌ c s) =
    let read = read_ticks s in
    (
      record {
        active_reserved = active;
        token_key = read.1;
        token_reserved = if eqb (code c) 43 then pos read.0 else negsuc read.0;
      },
      true,
    )

read_marker : String → RunMarker × Bool
read_marker String.[] = (zero_marker, false)
read_marker (String.◌∷◌ c s) = read_int (eqb (code c) 49) s

abbrev pub marker_layout : MarkerLibrary
unfolding flag int_text ticks read_marker read_int read_ticks
marker_layout = record {
  marshal = λ m. some (String.◌∷◌ (flag m.active_reserved) (int_text m.token_reserved m.token_key));
  unmarshal = read_marker;
  parse_int = λ s. pos 0;
  lower = λ c. c;
}

read_marker_lem :
    (b : Bool) (n : ℤ) (key : String)
    → read_marker (String.◌∷◌ (flag b) (int_text n key))
      ≡ (record { active_reserved = b; token_key = key; token_reserved = n }, true)
unfolding read_marker read_int flag int_text
read_marker_lem true (pos n) key = rw (read_ticks-ticks n key) refl
read_marker_lem true (negsuc n) key = rw (read_ticks-ticks n key) refl
read_marker_lem false (pos n) key = rw (read_ticks-ticks n key) refl
read_marker_lem false (negsuc n) key = rw (read_ticks-ticks n key) refl

pub marker_layout-IsMarkerLibrary : IsMarkerLibrary marker_layout
unfolding marker_layout
marker_layout-IsMarkerLibrary = record {
  unmarshal-marshal = λ m. (
    String.◌∷◌ (flag m.active_reserved) (int_text m.token_reserved m.token_key),
    refl,
    read_marker_lem m.active_reserved m.token_reserved m.token_key,
  );
}
