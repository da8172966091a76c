-- ===== src/Policy/FilePolicy/Tests.antt =====
-- A policy of a workspace that has one file.
use brain.Prelude.Assoc.{lookup, insert}
use brain.Prelude.Text.{Bytes, is_bytes, bytes_eq, bytes}
use brain.Prelude.Text.Paths.{is_abs}
use brain.Policy.FilePolicy.{
  FilePolicySpec, FilePolicy, allowed, denied, outside, FileSystem, file_exists, is_enabled,
  target_path, check_read, check_write, check_delete,
}
use brain.Policy.FilePolicy.Confined.{AnyMatches, check_read_confined, check_write_confined}
use brain.Policy.PathGlob.Tests.{star_or_same}
use brain.Prelude.{
  ◌≡◌, refl, true, false, none, some, [], ◌∷◌, if◌then◌else◌, nat_eq, string_eq, ◌==◌,
}

abbrev a_spec : FilePolicySpec
unfolding bytes
a_spec = record {
  allow_read = bytes "src/**" ∷ [];
  allow_create = bytes "out/*" ∷ [];
  allow_edit = bytes "src/**" ∷ [];
  allow_delete = [];
  deny = bytes "**/key" ∷ [];
  allow_commands = none;
  allow_delegate = none;
}

abbrev a_policy : FilePolicy
unfolding bytes a_spec
a_policy = record { root = bytes "/w"; spec = a_spec }

abbrev one_file : FileSystem
unfolding bytes is_bytes
one_file path = if path == bytes "/w/src/a" then some false else none

abbrev odd_path : Bytes
unfolding bytes
odd_path = bytes "../w/./src/a"

reads_file : check_read star_or_same one_file (some a_policy) odd_path ≡ allowed
unfolding check_read is_bytes a_policy a_spec one_file odd_path lookup insert
reads_file = refl

no_secret : check_read star_or_same one_file (some a_policy) (bytes "src/key") ≡ denied
unfolding check_read bytes is_bytes a_policy a_spec one_file lookup insert
no_secret = refl

no_escape : check_write star_or_same one_file (some a_policy) (bytes "out/../../x") ≡ outside
unfolding check_write bytes is_bytes a_policy a_spec one_file lookup insert
no_escape = refl

writes_new : check_write star_or_same one_file (some a_policy) (bytes "out/b") ≡ allowed
unfolding check_write bytes is_bytes a_policy a_spec one_file lookup insert
writes_new = refl

deletes_nothing : check_delete star_or_same one_file (some a_policy) (bytes "src/a") ≡ denied
unfolding check_delete bytes is_bytes a_policy a_spec one_file lookup insert
deletes_nothing = refl

check_read_confined_example : file_exists one_file (target_path a_policy odd_path) ≡ true
check_read_confined_example =
    (check_read_confined star_or_same one_file a_policy odd_path
      (unfold is_enabled a_policy a_spec in refl) (unfold is_abs a_policy in refl) reads_file).4

check_write_confined_example : (r : Bytes) × (¬ AnyMatches star_or_same r a_policy.spec.deny)
check_write_confined_example =
    let found =
      check_write_confined star_or_same one_file a_policy (bytes "out/b")
        (unfold is_enabled a_policy a_spec in refl) (unfold is_abs a_policy in refl) writes_new in
    (found.0, found.2)
