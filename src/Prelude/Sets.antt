-- ===== src/Prelude/Sets.antt =====
-- A `BTreeSet` of byte strings as the strictly ascending list of its elements.
use alloyport.Prelude.Tests.{ltb, ◌==◌, if◌then◌else◌}
use alloyport.Prelude.Lists.{any}
use alloyport.Prelude.Text.{text_eq, text_eq_iff}
use Prim.Native.Nat.{ℕ}
use mathlib.Core.Path.{◌≡◌, refl}
use mathlib.Core.Bool.{Bool, true, false, ◌&&◌, ◌||◌}
use mathlib.Core.List.{List, [], ◌∷◌}
use native.Mathlib.Omega.{arith}

-- Ord on byte strings: lexicographic, a proper prefix first.
unfoldable pub text_lt : List ℕ → List ℕ → Bool
text_lt [] [] = false
text_lt [] (y ∷ ys) = true
text_lt (x ∷ xs) [] = false
text_lt (x ∷ xs) (y ∷ ys) = ltb x y || x == y && text_lt xs ys

-- BTreeSet::contains
unfoldable pub has : List (List ℕ) → List ℕ → Bool
unfolding text_eq
has s x = any (text_eq x) s

-- BTreeSet::insert
unfoldable pub insert : List ℕ → List (List ℕ) → List (List ℕ)
unfolding text_lt
insert x [] = x ∷ []
insert x (y ∷ ys) =
    let rest = insert x ys in
    if text_lt x y then x ∷ y ∷ ys else (if text_lt y x then y ∷ rest else y ∷ ys)

-- Extend for BTreeSet
unfoldable pub extend : List (List ℕ) → List (List ℕ) → List (List ℕ)
unfolding insert
extend s [] = s
extend s (x ∷ xs) = extend (insert x s) xs

pub text_lt-total :
    (xs ys : List ℕ) → text_lt xs ys ≡ false → text_lt ys xs ≡ false → text_eq xs ys ≡ true
unfolding text_lt text_eq
text_lt-total [] [] h k = refl
text_lt-total [] (y ∷ ys) h k = cc
text_lt-total (x ∷ xs) [] h k = cc
text_lt-total (x ∷ xs) (y ∷ ys) h k = ground (arith, text_lt-total xs ys)

pub has-insert : (x z : List ℕ) (s : List (List ℕ)) → has (insert x s) z ≡ text_eq z x || has s z
unfolding has insert
has-insert x z [] = refl
has-insert x z (y ∷ ys) = ground (arith, has-insert x z ys, text_lt-total x y, text_eq_iff x y)

pub has-extend : (s xs : List (List ℕ)) (z : List ℕ) → has (extend s xs) z ≡ has s z || has xs z
unfolding has extend
has-extend s [] z = ground arith
has-extend s (x ∷ xs) z = ground (arith, has-extend (insert x s) xs z, has-insert x z s)
