-- ===== src/Prelude/Sorting.antt =====
-- What filters and sorts keep of a list.
use Prim.Native.Nat.{suc}
use mathlib.Core.Path.{◌≡◌, refl}
use mathlib.Core.Logic.{inl, inr}
use mathlib.Core.Bool.{Bool, true, ◌||◌}
use mathlib.Core.List.{List, [], ◌∷◌}
use native.Mathlib.Omega.{arith}
use shiftmate_web.Prelude.Tests.{Bool-cases}
use shiftmate_web.Prelude.Lists.{length, filter, any, All, insert_by, sort_by}

module _ {A : Type 0} (P : A → Type 0) where
  pub All-filter : (p : A → Bool) (xs : List A) → All P xs → All P (filter p xs)
  All-filter p [] a = tt
  All-filter p (x ∷ xs) a = elim (Bool-cases (p x)) [
    | inl keep ↦ rw keep (a.0, All-filter p xs a.1)
    | inr drop ↦ rw drop (All-filter p xs a.1)
  ]

  All-insert_by :
      (le : A → A → Bool) (x : A) (xs : List A) → P x → All P xs → All P (insert_by le x xs)
  All-insert_by le x [] p a = (p, tt)
  All-insert_by le x (y ∷ ys) p a = elim (Bool-cases (le x y)) [
    | inl first ↦ rw first (p, a)
    | inr later ↦ rw later (a.0, All-insert_by le x ys p a.1)
  ]

  pub All-sort_by : (le : A → A → Bool) (xs : List A) → All P xs → All P (sort_by le xs)
  All-sort_by le [] a = tt
  All-sort_by le (x ∷ xs) a = All-insert_by le x (sort_by le xs) a.0 (All-sort_by le xs a.1)

  -- What holds of the kept elements is their test and what held of all.
  pub All-kept :
      {Q : A → Type 0} (p : A → Bool) (xs : List A)
      → ((x : A) → p x ≡ true → P x → Q x)
      → All P xs
      → All Q (filter p xs)
  All-kept p [] f a = tt
  All-kept p (x ∷ xs) f a = elim (Bool-cases (p x)) [
    | inl keep ↦ rw keep (f x keep a.0, All-kept p xs f a.1)
    | inr drop ↦ rw drop (All-kept p xs f a.1)
  ]

module _ {A : Type 0} (le : A → A → Bool) where
  any-insert_by :
      (p : A → Bool) (x : A) (xs : List A) → any p (insert_by le x xs) ≡ (p x || any p xs)
  any-insert_by p x [] = ground arith
  any-insert_by p x (y ∷ ys) = ground (arith, any-insert_by p x ys)

  pub any-sort_by : (p : A → Bool) (xs : List A) → any p (sort_by le xs) ≡ any p xs
  any-sort_by p [] = refl
  any-sort_by p (x ∷ xs) = ground (arith, any-insert_by p x (sort_by le xs), any-sort_by p xs)

  length-insert_by : (x : A) (xs : List A) → length (insert_by le x xs) ≡ suc (length xs)
  length-insert_by x [] = omega arith
  length-insert_by x (y ∷ ys) = ground (arith, length-insert_by x ys)

  pub length-sort_by : (xs : List A) → length (sort_by le xs) ≡ length xs
  length-sort_by [] = refl
  length-sort_by (x ∷ xs) = omega (arith, length-insert_by x (sort_by le xs), length-sort_by xs)
