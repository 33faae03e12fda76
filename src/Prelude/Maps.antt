-- ===== src/Prelude/Maps.antt =====
-- A `BTreeMap` keyed by text as the list of its entries in ascending order of the keys.
use alloyport.Prelude.Tests.{if◌then◌else◌}
use alloyport.Prelude.Text.{Text, text_eq, text_eq_iff}
use alloyport.Prelude.Sets.{text_lt, text_lt-total}
use mathlib.Core.Path.{◌≡◌, refl}
use mathlib.Core.List.{List, [], ◌∷◌, map}
use mathlib.Core.Option.{Option, none, some}
use native.Mathlib.Omega.{arith}

pub record Entry {ℓ} (A : Type ℓ) : Type ℓ where
  pub key : Text
  pub value : A

module _ {ℓ} {A : Type ℓ} where
  -- BTreeMap::get
  unfoldable pub get : List (Entry A) → Text → Option A
  unfolding text_eq
  get [] k = none
  get (e ∷ m) k = if text_eq e.key k then some e.value else get m k

  -- BTreeMap::insert, without the value it replaces, which is that of `get`
  unfoldable pub put : Text → A → List (Entry A) → List (Entry A)
  unfolding text_lt
  put k v [] = record { key = k; value = v } ∷ []
  put k v (e ∷ m) =
      let rest = put k v m in
      if text_lt k e.key
      then record { key = k; value = v } ∷ e ∷ m
      else (if text_lt e.key k then e ∷ rest else record { key = k; value = v } ∷ m)

  -- BTreeMap::remove, without the value it removes
  unfoldable pub remove : Text → List (Entry A) → List (Entry A)
  unfolding text_eq
  remove k [] = []
  remove k (e ∷ m) = let rest = remove k m in if text_eq e.key k then rest else e ∷ rest

  abbrev pub keys : List (Entry A) → List Text
  keys m = map (λ e. e.key) m

module _ {ℓ} {A : Type ℓ} where
  pub get-put :
      (k j : Text) (v : A) (m : List (Entry A))
      → get (put k v m) j ≡ (if text_eq k j then some v else get m j)
  unfolding get put
  get-put k j v [] = refl
  get-put k j v (e ∷ m) = ground (
    arith,
    get-put k j v m,
    text_lt-total k e.key,
    text_eq_iff k e.key,
    text_eq_iff k j,
    text_eq_iff e.key j,
  )

  pub get-remove :
      (k j : Text) (m : List (Entry A))
      → get (remove k m) j ≡ (if text_eq k j then none else get m j)
  unfolding get remove
  get-remove k j [] = ground arith
  get-remove k j (e ∷ m) =
      ground (arith, get-remove k j m, text_eq_iff e.key k, text_eq_iff e.key j, text_eq_iff k j)

  -- A map without a value at any key is empty.
  pub get-first : (e : Entry A) (m : List (Entry A)) → get (e ∷ m) e.key ≡ some e.value
  unfolding get
  get-first e m = ground (arith, text_eq_iff e.key e.key)
