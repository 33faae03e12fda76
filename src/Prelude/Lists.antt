-- ===== src/Prelude/Lists.antt =====
-- Vectors as lists: `push` at the end, `last`, `last_mut`, indexing, and predicates on all elements.
use Prim.Native.Nat.{ℕ, suc, ◌+◌}
use mathlib.Core.Path.{◌≡◌, refl}
use mathlib.Core.Bool.{Bool, true, false, ◌&&◌, ◌||◌}
use mathlib.Core.List.{List, [], ◌∷◌, ◌++◌}
use mathlib.Core.Option.{Option, none, some}
use native.Mathlib.Omega.{arith}

module _ {ℓ} {A : Type ℓ} where
  abbrev pub length : List A → ℕ
  length [] = 0
  length (x ∷ xs) = suc (length xs)

  abbrev pub is_empty : List A → Bool
  is_empty [] = true
  is_empty (x ∷ xs) = false

  -- Vec::push
  abbrev pub push : List A → A → List A
  push xs a = xs ++ a ∷ []

  -- slice::last
  abbrev pub last : List A → Option A
  last [] = none
  last (x ∷ []) = some x
  last (x ∷ y ∷ xs) = last (y ∷ xs)

  -- A write through `last_mut`.
  abbrev pub set_last : List A → A → List A
  set_last [] a = []
  set_last (x ∷ []) a = a ∷ []
  set_last (x ∷ y ∷ xs) a = x ∷ set_last (y ∷ xs) a

  abbrev pub any : (A → Bool) → List A → Bool
  any p [] = false
  any p (x ∷ xs) = p x || any p xs

  abbrev pub all : (A → Bool) → List A → Bool
  all p [] = true
  all p (x ∷ xs) = p x && all p xs

  abbrev pub All {κ} : (A → Type κ) → List A → Type κ
  All P [] = Unit
  All P (x ∷ xs) = P x × All P xs

module _ {ℓ} {A : Type ℓ} where
  pub length-append : (xs ys : List A) → length (xs ++ ys) ≡ length xs + length ys
  length-append [] ys = omega arith
  length-append (x ∷ xs) ys = omega (arith, length-append xs ys)

  pub length-push : (xs : List A) (a : A) → length (push xs a) ≡ suc (length xs)
  length-push xs a = omega (arith, length-append xs (a ∷ []))

  pub last-set_last : (xs : List A) (a b : A) → last xs ≡ some b → last (set_last xs a) ≡ some a
  last-set_last [] a b h = cc
  last-set_last (x ∷ []) a b h = refl
  last-set_last (x ∷ y ∷ []) a b h = refl
  last-set_last (x ∷ y ∷ z ∷ xs) a b h = last-set_last (y ∷ z ∷ xs) a b h
