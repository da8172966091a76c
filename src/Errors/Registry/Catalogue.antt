-- ===== src/Errors/Registry/Catalogue.antt =====
-- What registration does to lookups and counts, and the consistency of the default registry.
use brain.Prelude.Assoc
use brain.Prelude.{
  refl, ◌+◌, String, ◌≡◌, sym, ◌∙◌, ◌↔◌, Bool, true, false, ◌&&◌, not, none, some, List, [], ◌∷◌,
  arith, if◌then◌else◌, ◌==◌, nat_eq, string_eq, All,
}
use brain.Prelude.Assoc.{lookup-insert, length-insert}
use brain.Errors.Class.{reserved_metadata, ErrorClass, transient, CodeMetadata}
use brain.Errors.Registry.{
  new_error_registry, ErrorRegistry, is_known_class, register, len, register_all, default_registry,
  lookup as find,
}
use mathlib.Core.Path.{subst}

-- The entries that `Register` takes.
abbrev pub is_accepted : CodeMetadata → Bool
is_accepted md = not (md.code == "") && is_known_class md.class

-- Registering an accepted entry makes its code map to it and leaves every other code alone; a
-- refused entry changes nothing. The result tells whether the registry grew, and it grows by one.
register_lem :
    (r : ErrorRegistry) (md : CodeMetadata) (c : String)
    → (find (register r md).0 c ≡ (if is_accepted md && md.code == c then some md else find r c))
      × (len (register r md).0 ≡ (if (register r md).1 then len r + 1 else len r))
      × (((register r md).1 ≡ true) ↔ ((is_accepted md ≡ true) × (find r md.code ≡ none)))
unfolding register find len
register_lem r md c = (
  ground (arith, lookup-insert md.code c md r.entries),
  ground (arith, length-insert md.code md r.entries),
  ((λ h. ground arith), (λ h. ground arith)),
)

abbrev pub is_transient : ErrorClass → Bool
is_transient transient = true
is_transient _ = false

-- A row whose class is one of the six, and that is retryable exactly if it is transient.
abbrev pub IsConsistentRow : CodeMetadata → Type 0
IsConsistentRow md = (is_known_class md.class ≡ true) × (md.retryable ≡ is_transient md.class)

pub record IsConsistent (r : ErrorRegistry) : Type 0 where
  pub row_at :
      (c : String) (md : CodeMetadata) → find r c ≡ some md → (md.code ≡ c) × IsConsistentRow md

register_row :
    (r : ErrorRegistry) (md : CodeMetadata)
    → IsConsistentRow md
    → IsConsistent r
    → (c : String) (m : CodeMetadata)
    → (if is_accepted md && md.code == c then some md else find r c) ≡ some m
    → (m.code ≡ c) × IsConsistentRow m
register_row r md ok h c m found = ground (arith, h.row_at c m, string_eq.beq_iff md.code c)

register-IsConsistent :
    (r : ErrorRegistry) (md : CodeMetadata)
    → IsConsistentRow md
    → IsConsistent r
    → IsConsistent (register r md).0
register-IsConsistent r md ok h = record {
  row_at = λ c m found. register_row r md ok h c m (sym ((register_lem r md c).0) ∙ found);
}

-- Registering consistent rows one after another keeps a registry consistent.
pub register_all-IsConsistent :
    (r : ErrorRegistry) (mds : List CodeMetadata)
    → All IsConsistentRow mds
    → IsConsistent r
    → IsConsistent (register_all r mds)
unfolding register_all
register_all-IsConsistent r [] oks h = h
register_all-IsConsistent r (md ∷ mds) oks h =
    register_all-IsConsistent (register r md).0 mds oks.1 (register-IsConsistent r md oks.0 h)

abbrev same : Bool → Bool → Bool
same true b = b
same false b = not b

abbrev rows_ok : List CodeMetadata → Bool
rows_ok [] = true
rows_ok (md ∷ mds) =
    is_known_class md.class && same md.retryable (is_transient md.class) && rows_ok mds

rows_ok→All : (mds : List CodeMetadata) → rows_ok mds ≡ true → All IsConsistentRow mds
rows_ok→All [] h = tt
rows_ok→All (md ∷ mds) h = (ground arith, rows_ok→All mds (ground arith))

default_registry_lem : default_registry ≡ register_all new_error_registry reserved_metadata
unfolding default_registry
default_registry_lem = refl

new_error_registry-IsConsistent : IsConsistent new_error_registry
unfolding new_error_registry find Assoc.lookup
new_error_registry-IsConsistent = record { row_at = λ c md h. ground arith }

-- Every entry of the default registry stands under its own code, has one of the six classes, and
-- is retryable exactly if its class is transient.
pub default_registry-IsConsistent : IsConsistent default_registry
default_registry-IsConsistent = subst IsConsistent (sym default_registry_lem) (
    register_all-IsConsistent new_error_registry reserved_metadata
      (rows_ok→All reserved_metadata refl) new_error_registry-IsConsistent)
