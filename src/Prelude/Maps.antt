-- ===== src/Prelude/Maps.antt =====
-- Go's maps with string keys, as association lists. A key that is written again keeps its place, so
-- the list is also one order in which the program may range over the map.
use Prim.Native.String.{String}
use mathlib.Core.Bool.{Bool, true, false, ◌||◌}
use mathlib.Core.Path.{◌≡◌, refl, subst₂}
use mathlib.Core.Logic.{◌⊎◌, inl, inr}
use mathlib.Core.Option.{Option, none, some}
use mathlib.Core.List.{List, [], ◌∷◌}
use native.Mathlib.Omega.{arith}
use text.Mathlib.Text.{◌==◌}
use text.Mathlib.TextEquality.{eq_iff}
use text.Mathlib.TextPositions.{eq_refl}
use nice_agent.Prelude.Tests.{if◌then◌else◌}

abbrev pub Map {ℓ} : Type ℓ → Type ℓ
Map V = List (String × V)

module _ {ℓ} {V : Type ℓ} where
  unfoldable pub lookup : String → Map V → Option V
  lookup k [] = none
  lookup k ((j, v) ∷ m) = if j == k then some v else lookup k m

  -- `m[k] = v`
  unfoldable pub put : String → V → Map V → Map V
  put k v [] = (k, v) ∷ []
  put k v ((j, w) ∷ m) = if j == k then (k, v) ∷ m else (j, w) ∷ put k v m

  -- `delete(m, k)`
  unfoldable pub delete : String → Map V → Map V
  delete k [] = []
  delete k ((j, v) ∷ m) = let rest = delete k m in if j == k then rest else (j, v) ∷ rest

  -- `m[k]`, with the zero value `z` of the element type for a key that is missing
  abbrev pub value_or : V → Option V → V
  value_or z none = z
  value_or z (some v) = v

  -- The keys, in the order of the entries.
  abbrev pub keys : Map V → List String
  keys [] = []
  keys ((k, _) ∷ m) = k ∷ keys m

  pub lookup-put :
      (k j : String) (v : V) (m : Map V)
      → lookup j (put k v m) ≡ (if k == j then some v else lookup j m)
  unfolding lookup put
  lookup-put k j v [] = refl
  lookup-put k j v ((i, w) ∷ m) =
      ground (arith, eq_iff k j, eq_iff i k, eq_iff i j, lookup-put k j v m)

  pub lookup-delete :
      (k j : String) (m : Map V) → lookup j (delete k m) ≡ (if k == j then none else lookup j m)
  unfolding lookup delete
  lookup-delete k j [] = ground arith
  lookup-delete k j ((i, w) ∷ m) =
      ground (arith, eq_iff k j, eq_iff i k, eq_iff i j, lookup-delete k j m)

  pub lookup-put_self : (k : String) (v : V) (m : Map V) → lookup k (put k v m) ≡ some v
  lookup-put_self k v m = simp (lookup-put, eq_refl)

-- An entry after a write is the one that was written, or an old one.
entry_of_put {ℓ} :
    {V : Type ℓ} (k j : String) (v w : V) (m : Map V)
    → lookup j (put k v m) ≡ some w
    → ((k ≡ j) × (v ≡ w)) ⊎ (lookup j m ≡ some w)
entry_of_put k j v w m e = ground (arith, lookup-put k j v m, eq_iff k j)

abbrev pub contains : String → List String → Bool
contains k [] = false
contains k (j ∷ js) = j == k || contains k js

-- A key that has a value is among the keys.
pub contains-keys {ℓ} :
    {V : Type ℓ} (k : String) (m : Map V) {v : V} → lookup k m ≡ some v → contains k (keys m) ≡ true
unfolding lookup
contains-keys k [] e = cc
contains-keys k ((j, w) ∷ m) {v} e = ground (arith, contains-keys k m {v = v})

module _ {ℓ κ} {V : Type ℓ} (P : String → V → Type κ) where
  -- Every entry of the map satisfies `P`.
  abbrev pub ForAll : Map V → Type (ℓ ⊔ κ)
  ForAll m = (k : String) (v : V) → lookup k m ≡ some v → P k v

  pub ForAll-put : (k : String) (v : V) (m : Map V) → P k v → ForAll m → ForAll (put k v m)
  ForAll-put k v m p h j w e = elim (entry_of_put k j v w m e) [
    | inl (same, q) ↦ subst₂ P same q p
    | inr old ↦ h j w old
  ]

pub ruleset map_laws = (lookup-put, lookup-delete, lookup-put_self)
