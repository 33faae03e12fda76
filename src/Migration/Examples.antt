-- ===== src/Migration/Examples.antt =====
-- Tests of bundle paths, and the properties at them.
use alloyport.Prelude.{◌≡◌, refl, some, List, [], ◌∷◌, ◌++◌, ok, err}
use alloyport.Prelude.Text.{Text, codes}
use alloyport.Migration.{split, try_bundle_path, invalid_bundle_path}
use alloyport.Migration.Paths.{resolve, names, try_bundle_path-resolve, resolve-injective}

abbrev kernel : Text
kernel = codes "src/a.cu"

abbrev root : List Text
root = codes "srv" ∷ codes "bundle" ∷ []

accepted : try_bundle_path kernel ≡ ok kernel
unfolding try_bundle_path
accepted = refl

itself : try_bundle_path (codes ".") ≡ ok (codes ".")
unfolding try_bundle_path
itself = refl

escaping :
    try_bundle_path (codes "src/../../etc") ≡ err (invalid_bundle_path (codes "src/../../etc"))
unfolding try_bundle_path
escaping = refl

absolute : try_bundle_path (codes "/etc") ≡ err (invalid_bundle_path (codes "/etc"))
unfolding try_bundle_path
absolute = refl

trailing : try_bundle_path (codes "src/") ≡ err (invalid_bundle_path (codes "src/"))
unfolding try_bundle_path
trailing = refl

-- Where the path that is refused would have led.
outside : resolve root (split (codes "src/../../etc")) ≡ some (codes "srv" ∷ codes "etc" ∷ [])
unfolding resolve split
outside = refl

try_bundle_path-resolve_example :
    (kernel ≡ kernel) × (resolve root (split kernel) ≡ some (root ++ names kernel))
try_bundle_path-resolve_example = try_bundle_path-resolve root kernel kernel accepted

resolve-injective_example : kernel ≡ kernel
resolve-injective_example =
    resolve-injective root kernel kernel kernel kernel accepted accepted refl
