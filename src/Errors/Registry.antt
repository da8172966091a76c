-- ===== src/Errors/Registry.antt =====
-- errors/registry.go: the process-wide map from an error code to its metadata. The mutex is left
-- out: each method runs as a whole under it.
pub mod Catalogue
mod Tests
use brain.Prelude.{
  ℕ, String, Bool, true, false, not, Option, List, [], ◌∷◌, ◌==◌, if◌then◌else◌, is_some, length,
  string_eq,
}
use brain.Prelude.Assoc
use brain.Errors.Class.{ErrorClass, other_class, CodeMetadata, reserved_metadata}

pub record ErrorRegistry : Type 0 where
  pub entries : List (String × CodeMetadata)

unfoldable pub new_error_registry : ErrorRegistry
new_error_registry = record { entries = [] }

abbrev pub is_known_class : ErrorClass → Bool
is_known_class (other_class s) = false
is_known_class _ = true

-- `Register`: the new registry, and whether the code is new. An empty code and an unknown class
-- are refused, and a second entry for a code replaces the first.
unfoldable pub register : ErrorRegistry → CodeMetadata → ErrorRegistry × Bool
register r md =
    if md.code == "" then (r, false) else if not (is_known_class md.class) then (r, false) else (
      record { entries = Assoc.insert md.code md r.entries },
      not (is_some (Assoc.lookup md.code r.entries)),
    )

-- `ErrorRegistry.Lookup`; the `false` of its second result is `none`.
unfoldable pub lookup : ErrorRegistry → String → Option CodeMetadata
lookup r code = Assoc.lookup code r.entries

unfoldable pub len : ErrorRegistry → ℕ
len r = length r.entries

-- The loop of `init`.
unfoldable pub register_all : ErrorRegistry → List CodeMetadata → ErrorRegistry
register_all r [] = r
register_all r (md ∷ mds) = register_all (register r md).0 mds

-- `DefaultRegistry` after `init`.
unfoldable pub default_registry : ErrorRegistry
unfolding register_all register new_error_registry Assoc.insert
default_registry = register_all new_error_registry reserved_metadata
