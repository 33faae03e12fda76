-- ===== src/Prelude/Sorting.antt =====
-- `sort_unstable` on unsigned integers, and indexing.
use alloyport.Prelude.Tests.{ltb, leb, if◌then◌else◌, Bool-cases}
use alloyport.Prelude.Lists.{length, All}
use Prim.Native.Nat.{ℕ, zero, suc, ◌+◌, ◌≤◌, ◌<◌}
use mathlib.Core.Path.{◌≡◌, refl, subst}
use mathlib.Core.Logic.{inl, inr}
use mathlib.Core.Bool.{Bool}
use mathlib.Core.List.{List, [], ◌∷◌}
use mathlib.Core.Option.{Option, none, some}
use native.Mathlib.Omega.{arith}

place : ℕ → List ℕ → List ℕ
place x [] = x ∷ []
place x (y ∷ ys) = let rest = place x ys in if leb x y then x ∷ y ∷ ys else y ∷ rest

unfoldable pub sort : List ℕ → List ℕ
unfolding place
sort [] = []
sort (x ∷ xs) = place x (sort xs)

-- xs[i], which panics out of range
abbrev pub index : List ℕ → ℕ → Option ℕ
index [] i = none
index (x ∷ xs) zero = some x
index (x ∷ xs) (suc i) = index xs i

-- How many elements pass a test.
abbrev pub count : (ℕ → Bool) → List ℕ → ℕ
count p [] = 0
count p (x ∷ xs) = (if p x then 1 else 0) + count p xs

abbrev IsSorted : List ℕ → Type 0
IsSorted [] = Unit
IsSorted (x ∷ xs) = All (λ y. x ≤ y) xs × IsSorted xs

count-place : (p : ℕ → Bool) (x : ℕ) (xs : List ℕ) → count p (place x xs) ≡ count p (x ∷ xs)
unfolding place
count-place p x [] = refl
count-place p x (y ∷ ys) = elim (Bool-cases (leb x y)) [
  | inl h ↦ rw h refl
  | inr h ↦ rw h (omega (arith, count-place p x ys))
]

pub count-sort : (p : ℕ → Bool) (xs : List ℕ) → count p (sort xs) ≡ count p xs
unfolding sort
count-sort p [] = refl
count-sort p (x ∷ xs) = omega (arith, count-place p x (sort xs), count-sort p xs)

length-place : (x : ℕ) (xs : List ℕ) → length (place x xs) ≡ suc (length xs)
unfolding place
length-place x [] = refl
length-place x (y ∷ ys) = ground (arith, length-place x ys)

pub length-sort : (xs : List ℕ) → length (sort xs) ≡ length xs
unfolding sort
length-sort [] = refl
length-sort (x ∷ xs) = omega (arith, length-place x (sort xs), length-sort xs)

module _ (P : ℕ → Type 0) where
  All-place : (x : ℕ) (xs : List ℕ) → P x → All P xs → All P (place x xs)
  unfolding place
  All-place x [] p a = (p, tt)
  All-place x (y ∷ ys) p a = elim (Bool-cases (leb x y)) [
    | inl h ↦ rw h (p, a)
    | inr h ↦ rw h (a.0, All-place x ys p a.1)
  ]

All-map : {P Q : ℕ → Type 0} → ((x : ℕ) → P x → Q x) → (xs : List ℕ) → All P xs → All Q xs
All-map f [] a = tt
All-map f (x ∷ xs) a = (f x a.0, All-map f xs a.1)

place-IsSorted : (x : ℕ) (xs : List ℕ) → IsSorted xs → IsSorted (place x xs)
unfolding place
place-IsSorted x [] s = (tt, tt)
place-IsSorted x (y ∷ ys) s = elim (Bool-cases (leb x y)) [
  | inl h ↦
      let le : x ≤ y = ground arith in rw h ((le, All-map (λ z (l : y ≤ z). omega arith) ys s.0), s)
  | inr h ↦
      let le : y ≤ x = ground arith in
      rw h (All-place (λ z. y ≤ z) x ys le s.0, place-IsSorted x ys s.1)
]

pub sort-IsSorted : (xs : List ℕ) → IsSorted (sort xs)
unfolding sort
sort-IsSorted [] = tt
sort-IsSorted (x ∷ xs) = place-IsSorted x (sort xs) (sort-IsSorted xs)

pub All-index :
    (P : ℕ → Type 0) (xs : List ℕ) (i : ℕ) {v : ℕ} → All P xs → index xs i ≡ some v → P v
All-index P [] i a e = cc
All-index P (x ∷ xs) zero {v} a e = let same : x ≡ v = cc in subst P same a.0
All-index P (x ∷ xs) (suc i) a e = All-index P xs i a.1 e

pub index-some : (xs : List ℕ) (i : ℕ) → i < length xs → (v : ℕ) × (index xs i ≡ some v)
index-some [] i h = absurd (omega arith)
index-some (x ∷ xs) zero h = (x, refl)
index-some (x ∷ xs) (suc i) h = index-some xs i (omega arith)

count-length : (p : ℕ → Bool) (xs : List ℕ) → count p xs ≤ length xs
count-length p [] = omega arith
count-length p (x ∷ xs) = ground (arith, count-length p xs)

none_below : (v : ℕ) (xs : List ℕ) → All (λ y. v ≤ y) xs → count (λ x. ltb x v) xs ≡ 0
none_below v [] a = refl
none_below v (x ∷ xs) a = ground (arith, none_below v xs a.1, a.0)

-- The element at a place of a sorted list has at most that many elements below it, and at most the
-- rest above it.
pub index-count_below :
    (xs : List ℕ) (i v : ℕ)
    → IsSorted xs
    → index xs i ≡ some v
    → (count (λ x. ltb x v) xs ≤ i) × (count (λ x. ltb v x) xs + suc i ≤ length xs)
index-count_below [] i v s e = cc
index-count_below (x ∷ xs) zero v s e =
    let same : x ≡ v = cc in
    let s' = subst (λ (z : ℕ). All (λ y. z ≤ y) xs) same s.0 in
    (ground (arith, none_below v xs s'), ground (arith, count-length (λ y. ltb v y) xs))
index-count_below (x ∷ xs) (suc i) v s e =
    let (b, a) = index-count_below xs i v s.1 e in
    let le : x ≤ v = All-index (λ y. x ≤ y) xs i s.0 e in (ground arith, ground arith)
