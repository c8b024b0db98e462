-- ===== src/Quota/Named.antt =====
-- The keys of redis_limiter.go: none is empty, and those of its counters are not those of its markers.
use text.Mathlib.TextLemmas.{append-eq-nil_iff, nil-append, cons-append}
use Prim.Native.Char.{code}
use nice_agent.Prelude.{
  ℕ, Bool, arith, ◌∙◌, String, true, refl, eqb, false, ◌≡◌, ◌==◌, concat, eq_iff, Bool-cases, inl,
  inr,
}
use nice_agent.Quota.Counters.{
  has_prefix, is_marker_key, active_key, hour_key, token_key, run_marker_key,
}

eqb_refl : (n : ℕ) → eqb n n ≡ true
eqb_refl n = ground arith

pub concat-named :
    (before part after : String)
    → (part == "") ≡ false
    → (concat before (concat part after) == "") ≡ false
concat-named before part after named = elim (Bool-cases (concat before (concat part after) == "")) [
  | inl same ↦
      (let whole = append-eq-nil_iff.0 ((eq_iff (concat before (concat part after)) "").0 same) in
        let first = append-eq-nil_iff.0 whole.1 in cc ((eq_iff part "").1 first.0, named))
  | inr apart ↦ apart
]

has_prefix-concat :
    (before p s : String) → has_prefix (concat before p) (concat before s) ≡ has_prefix p s
unfolding has_prefix
has_prefix-concat String.[] p s = rw (nil-append p, nil-append s) refl
has_prefix-concat (String.◌∷◌ c before) p s =
    rw (cons-append c before p, cons-append c before s)
      (rw (eqb_refl (code c)) (has_prefix-concat before p s))

-- The second text is at least as long as the first.
unfoldable covers : String → String → Bool
covers String.[] q = true
covers (String.◌∷◌ c p) String.[] = false
covers (String.◌∷◌ c p) (String.◌∷◌ d q) = covers p q

-- What stands behind a long enough text does not matter.
has_prefix-covers :
    (p q s : String) → covers p q ≡ true → has_prefix p (concat q s) ≡ has_prefix p q
unfolding has_prefix covers
has_prefix-covers String.[] q s h = refl
has_prefix-covers (String.◌∷◌ c p) String.[] s h = cc
has_prefix-covers (String.◌∷◌ c p) (String.◌∷◌ d q) s h =
    let inner = has_prefix-covers p q s h in rw (cons-append d q s) (rw inner refl)

key_kind :
    (key_prefix part s : String)
    → covers ":run:" part ≡ true
    → is_marker_key key_prefix (concat key_prefix (concat part s)) ≡ has_prefix ":run:" part
unfolding is_marker_key
key_kind key_prefix part s long =
    has_prefix-concat key_prefix ":run:" (concat part s) ∙ has_prefix-covers ":run:" part s long

-- The keys of the counters are not those of the markers.
pub run_marker_key-IsMarker :
    (key_prefix run_id : String)
    → is_marker_key key_prefix (run_marker_key key_prefix run_id) ≡ true
unfolding run_marker_key has_prefix covers
run_marker_key-IsMarker key_prefix run_id = key_kind key_prefix ":run:" _ refl

pub active_key-IsCounter :
    (key_prefix project_id user_id : String)
    → is_marker_key key_prefix (active_key key_prefix project_id user_id) ≡ false
unfolding active_key has_prefix covers
active_key-IsCounter key_prefix project_id user_id = key_kind key_prefix ":active:" _ refl

pub hour_key-IsCounter :
    (key_prefix project_id user_id hour : String)
    → is_marker_key key_prefix (hour_key key_prefix project_id user_id hour) ≡ false
unfolding hour_key has_prefix covers
hour_key-IsCounter key_prefix project_id user_id hour = key_kind key_prefix ":runs_per_hour:" _ refl

pub token_key-IsCounter :
    (key_prefix project_id user_id day : String)
    → is_marker_key key_prefix (token_key key_prefix project_id user_id day) ≡ false
unfolding token_key has_prefix covers
token_key-IsCounter key_prefix project_id user_id day =
    key_kind key_prefix ":model_tokens_per_day:" _ refl

pub empty_key-IsCounter : (key_prefix : String) → is_marker_key key_prefix "" ≡ false
unfolding is_marker_key has_prefix
empty_key-IsCounter String.[] = refl
empty_key-IsCounter (String.◌∷◌ c p) = rw (cons-append c p ":run:") refl
