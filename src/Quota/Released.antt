-- ===== src/Quota/Released.antt =====
-- What redis_limiter.go leaves of a reservation after its run has been released.
use nice_agent.Prelude.{
  ℤ, pos, negsuc, ◌+ℤ◌, ◌-ℤ◌, int_laws, is_positive, is_neg, String, Bool, not, ◌||◌, true, false,
  some, ◌≡◌, refl, ap, ◌∙◌, ◌==◌, if◌then◌else◌, arith, Bool-cases, ◌⊎◌, inl, inr, is_some,
}
use nice_agent.Protocol.Run.{Run, RunUsage, normalize_run_usage}
use nice_agent.Quota.Counters.{
  CounterStore, View, IsCounterStore, is_marker_key, at, SameText, active_key,
}
use nice_agent.Quota.Marker.{RunMarker, MarkerLibrary}
use nice_agent.Quota.Limiter.{
  RedisLimiter, Reservation, settled, marker_of, release_active, settle_tokens, release_marker,
}
use nice_agent.Quota.Named.{active_key-IsCounter}
use nice_agent.Quota.Rollback.{active_part, token_part, Back, Back-skip, Back-if, Back-decr}

-- What the limiter relies on of encoding/json: a marker that was written is read back.
pub record IsMarkerLibrary (lib : MarkerLibrary) : Type 0 where
  pub unmarshal-marshal :
      (m : RunMarker)
      → (raw : String) × (lib.marshal m ≡ some raw) × (lib.unmarshal raw ≡ (m, true))

-- The tokens that a run has used, at the counter of its reservation.
abbrev pub used_part : Reservation → ℤ → String → ℤ
used_part r actual j = if is_positive r.reserved_tokens then at r.token_key actual j else pos 0

-- What settling the tokens adds.
abbrev pub settle_part : Reservation → ℤ → String → ℤ
settle_part r actual j =
    if is_positive r.reserved_tokens then at r.token_key (actual -ℤ r.reserved_tokens) j else pos 0

-- The active part of a reservation is held under the key that the release finds.
abbrev pub HeldAt : String → Reservation → Type 0
HeldAt key r = (r.reserved_active ≡ false) ⊎ (r.active_key ≡ key)

-- Reserved tokens have a counter.
abbrev pub IsNamed : Reservation → Type 0
IsNamed r = (is_positive r.reserved_tokens ≡ false) ⊎ ((r.token_key == "") ≡ false)

at_sub_zero : (k : String) (c d : ℤ) (j : String) → c -ℤ at k (pos 0 -ℤ d) j ≡ c +ℤ at k d j
at_sub_zero k c d j = elim (Bool-cases (k == j)) [
  | inl same ↦ rw same (omega int_laws)
  | inr apart ↦ rw apart (omega int_laws)
]

plus_zero : (a : ℤ) → a ≡ a +ℤ pos 0
plus_zero a = omega int_laws

at_zero :
    (k : String) (c d : ℤ) (j : String)
    → is_positive d ≡ false
    → is_neg d ≡ false
    → c ≡ c +ℤ at k d j
at_zero k c (pos n) j p q =
    let e : n ≡ 0 = ground arith in
    rw e (elim (Bool-cases (k == j)) [
      | inl same ↦ rw same (omega int_laws)
      | inr apart ↦ rw apart (omega int_laws)
    ])
at_zero k c (negsuc n) j p q = cc

-- Reserved tokens and their settlement make the used ones.
pub used_lem :
    (r : Reservation) (actual : ℤ) (j : String)
    → token_part r j +ℤ settle_part r actual j ≡ used_part r actual j
used_lem r actual j = elim (Bool-cases (is_positive r.reserved_tokens)) [
  | inl asked ↦ rw asked (elim (Bool-cases (r.token_key == j)) [
    | inl same ↦ rw same (omega int_laws)
    | inr apart ↦ rw apart (omega int_laws)
  ])
  | inr free ↦ rw free (omega int_laws)
]

module _ {S : Type 0} {db : CounterStore S} {view : View S} (l : RedisLimiter)
    (law : IsCounterStore l.key_prefix db view) (lib : MarkerLibrary) where
  -- A step that met no error, with `n` added to each counter.
  pub record Grown (n : String → ℤ) (s : S) (answer : Bool × S) : Type 0 where
    pub fine : answer.0 ≡ true
    pub counts : (j : String) → view.count answer.1 j ≡ view.count s j +ℤ n j
    pub texts : SameText view s answer.1

  -- The active part is given back, and the tokens are settled.
  pub record Released (r : Reservation) (usage : RunUsage) (s : S) (answer : Bool × S)
      : Type 0 where
    pub fine : answer.0 ≡ true
    pub counts :
        (j : String)
        → view.count answer.1 j
          ≡ view.count s j
            -ℤ active_part r j
            +ℤ settle_part r (pos (normalize_run_usage usage).total_tokens) j
    pub texts : SameText view s answer.1

  Grown-skip : (s : S) → Grown (λ j. pos 0) s (true, s)
  Grown-skip s = record { fine = refl; counts = λ j. plus_zero (view.count s j); texts = λ j. refl }

  -- A difference is added, taken back, or left out.
  Grown-delta :
      (k : String) (d : ℤ) (s : S)
      → is_marker_key l.key_prefix k ≡ false
      → Grown (at k d) s (
          if is_positive d
          then settled db (db.incr_by k d s)
          else if is_neg d
          then settled db (db.decr_by k (pos 0 -ℤ d) s)
          else (true, s))
  Grown-delta k d s c = elim (Bool-cases (is_positive d)) [
    | inl more ↦
        (let (v, e, added) = law.incr_by_lem k d s c in
          rw more (record { fine = ap is_some e; counts = added.counts; texts = added.texts }))
    | inr no_more ↦ rw no_more (elim (Bool-cases (is_neg d)) [
      | inl less ↦
          (let (fine, taken) = law.decr_by_lem k (pos 0 -ℤ d) s c in
            rw less (record {
              fine = fine;
              counts = λ j. taken.counts j ∙ at_sub_zero k (view.count s j) d j;
              texts = taken.texts;
            }))
      | inr same ↦ rw same (record {
        fine = refl;
        counts = λ j. at_zero k (view.count s j) d j no_more same;
        texts = λ j. refl;
      })
    ])
  ]

  Grown-free :
      (b x : Bool) (n : String → ℤ) (s : S) (answer : Bool × S)
      → b ≡ false
      → Grown (λ j. if b then n j else pos 0) s (if not b || x then (true, s) else answer)
  Grown-free true x n s answer free = cc
  Grown-free false x n s answer free = Grown-skip s

  Grown-if :
      (b : Bool) (n : String → ℤ) (s : S) (answer : Bool × S)
      → Grown n s answer
      → Grown (λ j. if b then n j else pos 0) s (if not b || false then (true, s) else answer)
  Grown-if true n s answer h = h
  Grown-if false n s answer h = Grown-skip s

  settle_tokens-Grown :
      (r : Reservation) (actual : ℤ) (s : S)
      → IsNamed r
      → is_marker_key l.key_prefix r.token_key ≡ false
      → Grown (settle_part r actual) s (settle_tokens db lib l (marker_of db lib l r) actual s)
  unfolding settle_tokens
  settle_tokens-Grown r actual s (inl free) c =
      Grown-free (is_positive r.reserved_tokens) _ _ s _ free
  settle_tokens-Grown r actual s (inr named) c = rw named (
      Grown-if (is_positive r.reserved_tokens) _ s _
        (Grown-delta r.token_key (actual -ℤ r.reserved_tokens) s c))

  release_active-Back :
      (r : Reservation) (key : String) (s : S)
      → HeldAt key r
      → is_marker_key l.key_prefix key ≡ false
      → Back law (active_part r) s (release_active db lib l (marker_of db lib l r) key s)
  unfolding release_active
  release_active-Back r key s (inl free) c = rw free (Back-skip law s)
  release_active-Back r key s (inr held) c =
      rw held (Back-if law r.reserved_active (at key (pos 1)) s _ (Back-decr law key s c))

  -- The release of a marker, after the marker has been removed.
  pub release_marker_lem :
      (r : Reservation) (run : Run) (project_id : String) (usage : RunUsage) (s : S)
      → HeldAt (active_key l.key_prefix project_id run.user_id) r
      → IsNamed r
      → is_marker_key l.key_prefix r.token_key ≡ false
      → Released r usage s (release_marker db lib l (marker_of db lib l r) run project_id usage s)
  unfolding release_marker
  release_marker_lem r run project_id usage s held named c =
      let key = active_key l.key_prefix project_id run.user_id in
      let active = release_active db lib l (marker_of db lib l r) key s in
      let actual = pos (normalize_run_usage usage).total_tokens in
      let back =
        release_active-Back r key s held
          (active_key-IsCounter l.key_prefix project_id run.user_id) in
      let grown = settle_tokens-Grown r actual active.1 named c in
      record {
        fine = ground (arith, back.fine, grown.fine);
        counts = λ j. cc (grown.counts j, back.counts j);
        texts = λ j. grown.texts j ∙ back.texts j;
      }
