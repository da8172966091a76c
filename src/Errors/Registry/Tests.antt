-- ===== src/Errors/Registry/Tests.antt =====
-- Runs of the registry.
use brain.Prelude.{◌≡◌, refl, true, some, nat_eq, string_eq}
use brain.Prelude.Assoc
use brain.Errors.Class.{transient, CodeMetadata, row}
use brain.Errors.Registry.{new_error_registry, register, lookup}

abbrev slow_disk : CodeMetadata
slow_disk = row "disk_slow" transient true

registered : lookup (register new_error_registry slow_disk).0 "disk_slow" ≡ some slow_disk
unfolding lookup register new_error_registry Assoc.insert Assoc.lookup
registered = refl
