-- ===== src/Migration/Paths.antt =====
-- Where the paths of crates/alloyport-core/src/migration.rs lead.
use alloyport.Prelude.{
  ℕ, ◌==◌, ◌≡◌, refl, ap, sym, ◌∙◌, arith, true, false, not, ◌||◌, Option, none, some, List, [],
  ◌∷◌, ◌++◌, any, push, is_empty, if◌then◌else◌, Bool-cases, inl, inr, ok,
}
use alloyport.Prelude.Text.{Text, codes, text_eq, text_eq_iff, append-cancel_left}
use alloyport.Migration.{split, extend_first, is_relative, try_bundle_path, slash}

-- The parent of a directory, which the root does not have.
abbrev pub parent : List Text → Option (List Text)
parent [] = none
parent (x ∷ []) = some []
parent (x ∷ y ∷ xs) = elim (parent (y ∷ xs)) [ none ↦ none | some p ↦ some (x ∷ p) ]

-- The place that components lead to from a directory, as a file system resolves them.
unfoldable pub resolve : List Text → List Text → Option (List Text)
unfolding text_eq
resolve dir [] = some dir
resolve dir (w ∷ ws) =
    if is_empty w || text_eq w (codes ".")
    then resolve dir ws
    else (if text_eq w (codes "..")
        then (elim (parent dir) [ none ↦ none | some up ↦ resolve up ws ])
        else resolve (push dir w) ws)

-- The components of a path below its bundle.
abbrev pub names : Text → List Text
names value = if text_eq value (codes ".") then [] else split value

join : List Text → Text
join [] = []
join (w ∷ []) = w
join (w ∷ x ∷ ws) = w ++ slash ∷ join (x ∷ ws)

is_empty-extend_first : (c : ℕ) (ws : List Text) → is_empty (extend_first c ws) ≡ false
is_empty-extend_first c [] = refl
is_empty-extend_first c (w ∷ ws) = refl

is_empty-split : (t : Text) → is_empty (split t) ≡ false
unfolding split
is_empty-split [] = refl
is_empty-split (c ∷ cs) = elim (Bool-cases (c == slash)) [
  | inl h ↦ rw h refl
  | inr h ↦ rw h (is_empty-extend_first c (split cs))
]

join-extend_first :
    (c : ℕ) (ws : List Text) → is_empty ws ≡ false → join (extend_first c ws) ≡ c ∷ join ws
unfolding join
join-extend_first c [] h = cc
join-extend_first c (w ∷ []) h = refl
join-extend_first c (w ∷ x ∷ ws) h = refl

join-nil : (ws : List Text) → is_empty ws ≡ false → join ([] ∷ ws) ≡ slash ∷ join ws
unfolding join
join-nil [] h = cc
join-nil (x ∷ ws) h = refl

join-split : (t : Text) → join (split t) ≡ t
unfolding split join
join-split [] = refl
join-split (c ∷ cs) = elim (Bool-cases (c == slash)) [
  | inl h ↦ rw h (
      join-nil (split cs) (is_empty-split cs)
      ∙ (let e : slash ≡ c = ground arith in rw (e, join-split cs) refl))
  | inr h ↦ rw h (
      join-extend_first c (split cs) (is_empty-split cs) ∙ ap (λ (y : Text). c ∷ y) (join-split cs))
]

append-nil : (xs : List Text) → xs ++ [] ≡ xs
append-nil [] = refl
append-nil (x ∷ xs) = ap (λ (y : List Text). x ∷ y) (append-nil xs)

append-push : (dir : List Text) (w : Text) (ws : List Text) → push dir w ++ ws ≡ dir ++ w ∷ ws
append-push [] w ws = refl
append-push (x ∷ dir) w ws = ap (λ (y : List Text). x ∷ y) (append-push dir w ws)

resolve-plain :
    (dir ws : List Text) → any is_relative ws ≡ false → resolve dir ws ≡ some (dir ++ ws)
unfolding resolve is_relative
resolve-plain dir [] h = ap some (sym (append-nil dir))
resolve-plain dir (w ∷ ws) h =
    let plain : any is_relative ws ≡ false = ground arith in
    let unnamed : is_empty w || text_eq w (codes ".") ≡ false = ground arith in
    let below : text_eq w (codes "..") ≡ false = ground arith in
    rw (unnamed, below) (resolve-plain (push dir w) ws plain ∙ ap some (append-push dir w ws))

resolve-here : (root : List Text) → resolve root (split (codes ".")) ≡ some (root ++ [])
unfolding resolve split text_eq
resolve-here root = ap some (sym (append-nil root))

resolve-names :
    (root : List Text) (path : Text)
    → text_eq path (codes ".") || not (any is_relative (split path)) ≡ true
    → resolve root (split path) ≡ some (root ++ names path)
resolve-names root path h = elim (Bool-cases (text_eq path (codes "."))) [
  | inl here ↦ rw here (
      ap (λ (p : Text). resolve root (split p)) ((text_eq_iff path (codes ".")).0 here)
      ∙ resolve-here root)
  | inr below ↦
      let plain : any is_relative (split path) ≡ false = ground arith in
      rw below (resolve-plain root (split path) plain)
]

-- The path that components below the bundle are written as.
path_of : List Text → Text
path_of [] = codes "."
path_of (w ∷ ws) = join (w ∷ ws)

path_of-join : (ws : List Text) → is_empty ws ≡ false → path_of ws ≡ join ws
unfolding path_of
path_of-join [] h = cc
path_of-join (w ∷ ws) h = refl

path_of-names : (p : Text) → path_of (names p) ≡ p
unfolding path_of
path_of-names p = elim (Bool-cases (text_eq p (codes "."))) [
  | inl here ↦ rw here (sym ((text_eq_iff p (codes ".")).0 here))
  | inr below ↦ rw below (path_of-join (split p) (is_empty-split p) ∙ join-split p)
]

names-injective : (p q : Text) → names p ≡ names q → p ≡ q
names-injective p q h = sym (path_of-names p) ∙ ap path_of h ∙ path_of-names q

-- A path that `BundlePath` accepts is kept as it was given, and a file system that resolves its
-- components from any directory arrives below that directory, at exactly those components; the path
-- "." is the directory itself.
pub try_bundle_path-resolve :
    (root : List Text) (value path : Text)
    → try_bundle_path value ≡ ok path
    → (path ≡ value) × (resolve root (split path) ≡ some (root ++ names path))
unfolding try_bundle_path
try_bundle_path-resolve root value path h =
    let same : path ≡ value = ground arith in
    let sound : text_eq value (codes ".") || not (any is_relative (split value)) ≡ true =
      ground arith in
    rw same (refl, resolve-names root value sound)

-- Two paths that `BundlePath` accepts and that resolve to the same place from a directory are equal.
pub resolve-injective :
    (root : List Text) (v w p q : Text)
    → try_bundle_path v ≡ ok p
    → try_bundle_path w ≡ ok q
    → resolve root (split p) ≡ resolve root (split q)
    → p ≡ q
resolve-injective root v w p q hv hw h =
    let at_p = (try_bundle_path-resolve root v p hv).1 in
    let at_q = (try_bundle_path-resolve root w q hw).1 in
    names-injective p q
      (append-cancel_left root (names p) (names q) (let e = sym at_p ∙ h ∙ at_q in cc))
