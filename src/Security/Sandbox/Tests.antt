-- ===== src/Security/Sandbox/Tests.antt =====
-- A sandbox that may read one directory, without a directory in it.
use brain.Prelude.Text.{Bytes, is_bytes, bytes}
use brain.Prelude.Text.Paths.{is_abs, clean}
use brain.Security.Sandbox.{FsPolicy, denial, check_read}
use brain.Security.Sandbox.Elements.{AnyAbove, check_read_iff}
use brain.Prelude.{◌≡◌, refl, none, [], ◌∷◌}

abbrev a_policy : FsPolicy
unfolding bytes
a_policy = record {
  read_allowed = bytes "/work" ∷ [];
  write_allowed = [];
  denied = bytes "/work/keys" ∷ [];
}

abbrev a_path : Bytes
unfolding bytes
a_path = bytes "/work//a/../b"

reads_below : check_read a_policy a_path ≡ none
unfolding check_read is_bytes a_policy a_path
reads_below = refl

no_sibling : check_read a_policy (bytes "/workshop") ≡ denial
unfolding check_read bytes is_bytes a_policy
no_sibling = refl

no_keys : check_read a_policy (bytes "/work/b/../keys/k") ≡ denial
unfolding check_read bytes is_bytes a_policy
no_keys = refl

check_read_iff_example : AnyAbove a_policy.read_allowed a_path × ¬ AnyAbove a_policy.denied a_path
unfolding a_policy a_path is_bytes
check_read_iff_example =
    (check_read_iff a_policy a_path ((unfold is_abs in refl, unfold clean in refl), tt)
        ((unfold is_abs in refl, unfold clean in refl), tt) (unfold is_abs in refl)).0
      reads_below
