-- ===== src/Migration.antt =====
-- crates/alloyport-core/src/migration.rs: the paths of a bundle.
pub mod Paths
pub mod Examples
use alloyport.Prelude.{
  ℕ, ◌==◌, Bool, true, false, not, ◌&&◌, ◌||◌, List, [], ◌∷◌, any, is_empty, if◌then◌else◌, Result,
  ok, err,
}
use alloyport.Prelude.Text.{Text, codes, text_eq, is_blank}

pub data MigrationSpecError : Type 0 where
  unsupported_schema_version : ℕ → MigrationSpecError
  invalid_bundle_path : Text → MigrationSpecError
  missing_device_source missing_host_source missing_build_file : MigrationSpecError
  missing_public_symbol missing_public_contract missing_build_target : MigrationSpecError
  invalid_reference_command : MigrationSpecError
  missing_target_fact : Text → MigrationSpecError
  missing_source_revision missing_supported_domain : MigrationSpecError
  invalid_unsupported_construct missing_fallback : MigrationSpecError

abbrev pub slash : ℕ
slash = 47

-- The character in front of the first component.
abbrev pub extend_first : ℕ → List Text → List Text
extend_first c [] = (c ∷ []) ∷ []
extend_first c (w ∷ ws) = (c ∷ w) ∷ ws

-- value.split('/')
unfoldable pub split : Text → List Text
split [] = [] ∷ []
split (c ∷ cs) = let rest = split cs in if c == slash then [] ∷ rest else extend_first c rest

abbrev starts_with : ℕ → Text → Bool
starts_with c [] = false
starts_with c (x ∷ xs) = x == c

unfoldable pub is_relative : Text → Bool
unfolding text_eq
is_relative component =
    is_empty component || text_eq component (codes ".") || text_eq component (codes "..")

-- TryFrom<String> for BundlePath
unfoldable pub try_bundle_path : Text → Result MigrationSpecError Text
unfolding is_blank split is_relative text_eq
try_bundle_path value =
    if is_blank value
      || starts_with slash value
      || any (λ c. c == 0) value
      || any (λ c. c == 92) value
      || (not (text_eq value (codes ".")) && any is_relative (split value))
    then err (invalid_bundle_path value)
    else ok value
