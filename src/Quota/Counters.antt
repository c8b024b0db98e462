-- ===== src/Quota/Counters.antt =====
-- The `CounterStore` of services/control-plane/internal/quota/redis_limiter.go, which Redis implements:
-- its calls, what the limiter relies on of them by the documentation of Redis, and its keys.
use nice_agent.Prelude.{
  ℕ, ℤ, pos, ◌+ℤ◌, ◌-ℤ◌, String, Bool, ◌||◌, true, false, Option, none, some, ◌≡◌, ◌==◌,
  if◌then◌else◌, Char, concat, trim_space, eqb, is_some,
}
use Prim.Native.Char.{code}

-- `none` is an error. The time that a key lives matters to `expire` alone.
pub record CounterStore (S : Type 0) : Type 0 where
  pub incr : String → S → Option ℤ × S
  pub decr : String → S → Option ℤ × S
  pub incr_by : String → ℤ → S → Option ℤ × S
  pub decr_by : String → ℤ → S → Option ℤ × S
  pub expire : String → ℕ → S → Bool × S
  pub set_nx : String → String → ℕ → S → Option Bool × S
  pub get : String → S → Option (Option String) × S
  pub del : String → S → Option ℕ × S

-- What a client sees of the store: its counters and its texts.
pub record View (S : Type 0) : Type 0 where
  pub count : S → String → ℤ
  pub text : S → String → Option String

-- The amount at a key and nothing elsewhere.
abbrev pub at : String → ℤ → String → ℤ
at k n j = if k == j then n else pos 0

module _ {S : Type 0} (view : View S) where
  -- The texts are the same.
  abbrev pub SameText : S → S → Type 0
  SameText s t = (j : String) → view.text t j ≡ view.text s j

  -- `t` is `s` with `n` added to the counter of `k`, which is now `v`.
  pub record Added (k : String) (n : ℤ) (s t : S) (v : ℤ) : Type 0 where
    pub new : v ≡ view.count t k
    pub counts : (j : String) → view.count t j ≡ view.count s j +ℤ at k n j
    pub texts : SameText s t

  -- `t` is `s` with `n` taken from the counter of `k`.
  pub record Taken (k : String) (n : ℤ) (s t : S) : Type 0 where
    pub counts : (j : String) → view.count t j ≡ view.count s j -ℤ at k n j
    pub texts : SameText s t

  abbrev pub SameCount : S → S → Type 0
  SameCount s t = (j : String) → view.count t j ≡ view.count s j

unfoldable pub has_prefix : String → String → Bool
has_prefix String.[] s = true
has_prefix (String.◌∷◌ c p) String.[] = false
has_prefix (String.◌∷◌ c p) (String.◌∷◌ d s) =
    if eqb (code c) (code d) then has_prefix p s else false

-- The keys under which a limiter keeps the markers of its runs; all others are counters.
unfoldable pub is_marker_key : String → String → Bool
is_marker_key key_prefix key = has_prefix (concat key_prefix ":run:") key

-- What the limiter relies on while Redis answers, no key expires and no counter leaves 64 bits, in the
-- states `S` that the limiter brings about, where the key of a counter holds a number or nothing, and
-- the key of a marker a text or nothing. The view has numbers at the keys of counters only, and texts
-- at those of markers only; of the calls on numbers it tells at the former, of the others at the latter.
pub record IsCounterStore {S : Type 0} (key_prefix : String) (db : CounterStore S) (view : View S)
    : Type 0 where
  pub incr_lem :
      (k : String) (s : S)
      → is_marker_key key_prefix k ≡ false
      → (v : ℤ) × ((db.incr k s).0 ≡ some v) × Added view k (pos 1) s (db.incr k s).1 v
  pub decr_lem :
      (k : String) (s : S)
      → is_marker_key key_prefix k ≡ false
      → (is_some (db.decr k s).0 ≡ true) × Taken view k (pos 1) s (db.decr k s).1
  pub incr_by_lem :
      (k : String) (n : ℤ) (s : S)
      → is_marker_key key_prefix k ≡ false
      → (v : ℤ) × ((db.incr_by k n s).0 ≡ some v) × Added view k n s (db.incr_by k n s).1 v
  pub decr_by_lem :
      (k : String) (n : ℤ) (s : S)
      → is_marker_key key_prefix k ≡ false
      → (is_some (db.decr_by k n s).0 ≡ true) × Taken view k n s (db.decr_by k n s).1
  pub expire_lem :
      (k : String) (ttl : ℕ) (s : S)
      → is_marker_key key_prefix k ≡ false
      → ((db.expire k ttl s).0 ≡ true)
        × SameCount view s (db.expire k ttl s).1
        × SameText view s (db.expire k ttl s).1
  pub set_nx_lem :
      (k v : String) (ttl : ℕ) (s : S)
      → is_marker_key key_prefix k ≡ true
      → view.text s k ≡ none
      → ((db.set_nx k v ttl s).0 ≡ some true)
        × SameCount view s (db.set_nx k v ttl s).1
        × ((j : String)
            → view.text (db.set_nx k v ttl s).1 j ≡ (if k == j then some v else view.text s j))
  pub get_lem :
      (k : String) (s : S)
      → is_marker_key key_prefix k ≡ true
      → ((db.get k s).0 ≡ some (view.text s k))
        × SameCount view s (db.get k s).1
        × SameText view s (db.get k s).1
  pub del_lem :
      (k : String) (s : S)
      → is_marker_key key_prefix k ≡ true
      → ((db.del k s).0 ≡ some (if is_some (view.text s k) then 1 else 0))
        × SameCount view s (db.del k s).1
        × ((j : String) → view.text (db.del k s).1 j ≡ (if k == j then none else view.text s j))

-- A character that a key may not hold.
abbrev is_key_break : Char → Bool
is_key_break c =
    eqb (code c) 58 || eqb (code c) 32 || eqb (code c) 10 || eqb (code c) 13 || eqb (code c) 9

-- `strings.NewReplacer` of `safeKey`
unfoldable pub replace_breaks : String → String
replace_breaks String.[] = ""
replace_breaks (String.◌∷◌ c s) =
    let rest = replace_breaks s in if is_key_break c then concat "_" rest else String.◌∷◌ c rest

unfoldable pub safe_key : String → String
safe_key value = if trim_space value == "" then "unknown" else replace_breaks (trim_space value)

unfoldable pub active_key : String → String → String → String
active_key key_prefix project_id user_id =
    concat key_prefix
      (concat ":active:" (concat (safe_key project_id) (concat ":" (safe_key user_id))))

-- `hour` is the hour in UTC, as `Format` writes it.
unfoldable pub hour_key : String → String → String → String → String
hour_key key_prefix project_id user_id hour = concat key_prefix (
    concat ":runs_per_hour:"
      (concat (safe_key project_id) (concat ":" (concat (safe_key user_id) (concat ":" hour)))))

unfoldable pub token_key : String → String → String → String → String
token_key key_prefix project_id user_id day = concat key_prefix (
    concat ":model_tokens_per_day:"
      (concat (safe_key project_id) (concat ":" (concat (safe_key user_id) (concat ":" day)))))

unfoldable pub run_marker_key : String → String → String
run_marker_key key_prefix run_id = concat key_prefix (concat ":run:" (safe_key run_id))
