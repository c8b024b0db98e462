-- ===== src/Prelude/Lists.antt =====
-- Lists measured by native numbers, under the library's names.
use Prim.Native.Nat.{ℕ, zero, suc, ◌+◌, ◌≤◌, ◌<◌}
use mathlib.Core.Path.{◌≡◌, refl, ap}
use mathlib.Core.Bool.{Bool}
use mathlib.Core.List.{List, [], ◌∷◌, ◌++◌}
use native.Mathlib.Omega.{arith}
use nice_agent.Prelude.Tests.{if◌then◌else◌}

module _ {ℓ} {A : Type ℓ} where
  abbrev pub length : List A → ℕ
  length [] = 0
  length (x ∷ xs) = suc (length xs)

  abbrev pub drop : ℕ → List A → List A
  drop zero xs = xs
  drop (suc n) [] = []
  drop (suc n) (x ∷ xs) = drop n xs

  -- The elements that pass a Boolean test, in order.
  abbrev pub keep : (A → Bool) → List A → List A
  keep p [] = []
  keep p (x ∷ xs) = let rest = keep p xs in if p x then x ∷ rest else rest

  insert_by : (A → A → Bool) → A → List A → List A
  insert_by le a [] = a ∷ []
  insert_by le a (b ∷ bs) = let rest = insert_by le a bs in if le a b then a ∷ b ∷ bs else b ∷ rest

  -- A sort by a Boolean order, as an insertion sort.
  unfoldable pub sort_by : (A → A → Bool) → List A → List A
  unfolding insert_by
  sort_by le [] = []
  sort_by le (a ∷ bs) = insert_by le a (sort_by le bs)

  -- The sum of what `f` reads of the elements.
  abbrev pub total : (A → ℕ) → List A → ℕ
  total f [] = 0
  total f (x ∷ xs) = f x + total f xs

  total-insert_by :
      (f : A → ℕ) (le : A → A → Bool) (x : A) (xs : List A)
      → total f (insert_by le x xs) ≡ f x + total f xs
  unfolding insert_by
  total-insert_by f le x [] = refl
  total-insert_by f le x (y ∷ ys) = ground (arith, total-insert_by f le x ys)

  pub total-sort_by :
      (f : A → ℕ) (le : A → A → Bool) (xs : List A) → total f (sort_by le xs) ≡ total f xs
  unfolding sort_by
  total-sort_by f le [] = refl
  total-sort_by f le (x ∷ xs) =
      omega (arith, total-insert_by f le x (sort_by le xs), total-sort_by f le xs)

  -- The first `n` elements that pass a test.
  unfoldable pub first_that : ℕ → (A → Bool) → List A → List A
  first_that zero p xs = []
  first_that (suc n) p [] = []
  first_that (suc n) p (x ∷ xs) =
      let taken = first_that n p xs in
      let skipped = first_that (suc n) p xs in if p x then x ∷ taken else skipped

  unfoldable pub reverse_onto : List A → List A → List A
  reverse_onto [] ys = ys
  reverse_onto (x ∷ xs) ys = reverse_onto xs (x ∷ ys)

  pub append_nil : (xs : List A) → xs ++ [] ≡ xs
  append_nil [] = refl
  append_nil (x ∷ xs) = ap (◌∷◌ x) (append_nil xs)

  pub append_assoc : (xs ys zs : List A) → (xs ++ ys) ++ zs ≡ xs ++ (ys ++ zs)
  append_assoc [] ys zs = refl
  append_assoc (x ∷ xs) ys zs = ap (◌∷◌ x) (append_assoc xs ys zs)

  pub append_snoc : (xs : List A) (y : A) (ys : List A) → (xs ++ y ∷ []) ++ ys ≡ xs ++ y ∷ ys
  append_snoc xs y ys = append_assoc xs (y ∷ []) ys

  pub length-append : (xs ys : List A) → length (xs ++ ys) ≡ length xs + length ys
  length-append [] ys = omega arith
  length-append (x ∷ xs) ys = omega (arith, length-append xs ys)

  pub length-keep : (p : A → Bool) (xs : List A) → length (keep p xs) ≤ length xs
  length-keep p [] = omega arith
  length-keep p (x ∷ xs) = ground (arith, length-keep p xs)

  pub drop-append_le :
      (k : ℕ) (xs ys : List A) → k ≤ length xs → drop k (xs ++ ys) ≡ drop k xs ++ ys
  drop-append_le zero xs ys h = refl
  drop-append_le (suc k) [] ys h = absurd (omega arith)
  drop-append_le (suc k) (x ∷ xs) ys h = drop-append_le k xs ys (omega arith)

  pub drop-length : (xs : List A) → drop (length xs) xs ≡ []
  drop-length [] = refl
  drop-length (x ∷ xs) = drop-length xs

  pub length-drop : (k : ℕ) (xs : List A) → k ≤ length xs → k + length (drop k xs) ≡ length xs
  length-drop zero xs h = omega arith
  length-drop (suc k) [] h = omega arith
  length-drop (suc k) (x ∷ xs) h = omega (arith, length-drop k xs (omega arith))

  -- What follows the element at position `k`.
  pub drop-suc :
      (k : ℕ) (xs : List A) {y : A} {ys : List A} → drop k xs ≡ y ∷ ys → drop (suc k) xs ≡ ys
  drop-suc zero [] h = ground arith
  drop-suc zero (x ∷ xs) h = ground arith
  drop-suc (suc k) [] h = ground arith
  drop-suc (suc k) (x ∷ xs) h = drop-suc k xs h

  pub drop_in : (k : ℕ) (xs : List A) {y : A} {ys : List A} → drop k xs ≡ y ∷ ys → k < length xs
  drop_in zero [] h = ground arith
  drop_in zero (x ∷ xs) h = omega arith
  drop_in (suc k) [] h = ground arith
  drop_in (suc k) (x ∷ xs) h = omega (arith, drop_in k xs h)

module _ {ℓ κ} {A : Type ℓ} (P : A → Type κ) where
  abbrev pub All : List A → Type κ
  All [] = Unit
  All (x ∷ xs) = P x × All xs

  pub All-concat : (xs ys : List A) → All xs → All ys → All (xs ++ ys)
  All-concat [] ys h k = k
  All-concat (x ∷ xs) ys (p, h) k = (p, All-concat xs ys h k)

  All-insert_by : (le : A → A → Bool) (x : A) (xs : List A) → P x → All xs → All (insert_by le x xs)
  unfolding insert_by
  All-insert_by le x [] p h = (p, tt)
  All-insert_by le x (y ∷ ys) p (q, h) = ground (arith, All-insert_by le x ys p h)

  pub All-sort_by : (le : A → A → Bool) (xs : List A) → All xs → All (sort_by le xs)
  unfolding sort_by
  All-sort_by le [] h = tt
  All-sort_by le (x ∷ xs) (p, h) = All-insert_by le x (sort_by le xs) p (All-sort_by le xs h)
