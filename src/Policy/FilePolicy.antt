-- ===== src/Policy/FilePolicy.antt =====
-- executionpolicy/file_policy.go: which files a run may read, write and delete below its root. The
-- file system is an argument: `none` where `os.Stat` fails, else whether it is a directory.
pub mod Confined
mod Tests
use brain.Policy.PathGlob.{PathMatch, doublestar, or_false, validate, match}
use brain.Prelude.Text.Paths.Cleaned.{is_outside}
use brain.Prelude.Text.Paths.{
  slash, dot, has_prefix, split_at, join_with, is_abs, clean, join_paths, rel,
}
use brain.Prelude.Text.{Bytes, bytes_eq, trim_space}
use brain.Prelude.{
  Bool, true, false, ◌&&◌, ◌||◌, not, Option, none, some, List, [], ◌∷◌, ◌++◌, if◌then◌else◌,
  nat_eq, string_eq, ◌==◌, is_some, is_nil,
}

pub record FilePolicySpec : Type 0 where
  pub allow_read : List Bytes
  pub allow_create : List Bytes
  pub allow_edit : List Bytes
  pub allow_delete : List Bytes
  pub deny : List Bytes
  pub allow_commands : Option Bool
  pub allow_delegate : Option Bool

pub record FilePolicy : Type 0 where
  pub root : Bytes
  pub spec : FilePolicySpec

-- What a check answers: nil, or which of the refusals.
pub data Verdict : Type 0 where
  allowed : Verdict
  denied : Verdict  -- denied by policy
  missing : Verdict  -- the file does not exist
  outside : Verdict  -- outside the root, or the root itself

abbrev pub FileSystem : Type 0
FileSystem = Bytes → Option Bool

unfoldable pub normalize_patterns : List Bytes → List Bytes
unfolding trim_space
normalize_patterns [] = []
normalize_patterns (item ∷ src) =
    let item' = trim_space item in
    let rest = normalize_patterns src in if item' == [] then rest else item' ∷ rest

unfoldable pub file_exists : FileSystem → Bytes → Bool
file_exists fs path = elim (fs path) [ none ↦ false | some is_dir ↦ not is_dir ]

-- `Enabled` of a policy that is not nil.
unfoldable pub is_enabled : FilePolicySpec → Bool
is_enabled s =
    not (is_nil s.allow_read)
    || not (is_nil s.allow_create)
    || not (is_nil s.allow_edit)
    || not (is_nil s.allow_delete)
    || not (is_nil s.deny)
    || is_some s.allow_commands
    || is_some s.allow_delegate

unfoldable pub enabled : Option FilePolicy → Bool
unfolding is_enabled
enabled none = false
enabled (some p) = is_enabled p.spec

abbrev or_true : Option Bool → Bool
or_true none = true
or_true (some b) = b

unfoldable pub allows_commands : Option FilePolicy → Bool
unfolding is_enabled
allows_commands none = true
allows_commands (some p) = if is_enabled p.spec then or_true p.spec.allow_commands else true

unfoldable pub allows_delegation : Option FilePolicy → Bool
unfolding is_enabled
allows_delegation none = true
allows_delegation (some p) = if is_enabled p.spec then or_true p.spec.allow_delegate else true

abbrev pub unless_outside : Bytes → Option Bytes → Option (Bytes × Bytes)
unless_outside abs none = none
unless_outside abs (some r) = if is_outside r then none else some (r, abs)

-- The absolute path that a target stands for.
abbrev pub target_path : FilePolicy → Bytes → Bytes
target_path p target = clean (if is_abs target then target else join_paths p.root target)

-- `resolveAllowingRoot`: the path from the root and the absolute path.
unfoldable pub resolve_allowing_root : FilePolicy → Bytes → Option (Bytes × Bytes)
unfolding rel clean join_paths is_abs is_outside
resolve_allowing_root p target =
    let abs = target_path p target in unless_outside abs (rel p.root abs)

abbrev pub unless_root : Option (Bytes × Bytes) → Option (Bytes × Bytes)
unless_root none = none
unless_root (some found) = if found.0 == dot then none else some found

unfoldable pub resolve : FilePolicy → Bytes → Option (Bytes × Bytes)
unfolding resolve_allowing_root
resolve p target = unless_root (resolve_allowing_root p target)

-- `strings.ContainsAny(s, "*?[")`.
unfoldable pub has_wildcard : Bytes → Bool
has_wildcard [] = false
has_wildcard (b ∷ s) = b == 42 || b == 63 || b == 91 || has_wildcard s

-- The segments before the first that has a wildcard.
unfoldable pub plain_segments : List Bytes → List Bytes
unfolding has_wildcard
plain_segments [] = []
plain_segments (s ∷ ss) =
    let rest = plain_segments ss in if s == doublestar || has_wildcard s then [] else s ∷ rest

unfoldable pub contains : Bytes → List Bytes → Bool
contains s [] = false
contains s (x ∷ xs) = x == s || contains s xs

-- `searchPrefixes`, behind those that have been seen.
unfoldable pub search_prefixes : List Bytes → List Bytes → List Bytes
unfolding plain_segments split_at join_with contains
search_prefixes prefixes [] = prefixes
search_prefixes prefixes (pattern ∷ patterns) =
    let value = join_with slash (plain_segments (split_at slash pattern)) in
    search_prefixes (if contains value prefixes then prefixes else prefixes ++ value ∷ []) patterns

unfoldable pub below_prefix : Bytes → List Bytes → Bool
unfolding has_prefix
below_prefix r [] = false
below_prefix r (prefix ∷ prefixes) =
    prefix == [] || r == prefix || has_prefix r (prefix ++ slash ∷ []) || below_prefix r prefixes

module _ (path_match : PathMatch) where
  unfoldable pub matches_any : Bytes → List Bytes → Bool
  unfolding match
  matches_any target [] = false
  matches_any target (pattern ∷ patterns) =
      or_false (match path_match pattern target) || matches_any target patterns

  unfoldable pub all_valid : List Bytes → Bool
  unfolding validate
  all_valid [] = true
  all_valid (pattern ∷ patterns) = validate path_match pattern && all_valid patterns

  abbrev pub normalized : FilePolicySpec → FilePolicySpec
  normalized s = record s {
    allow_read = normalize_patterns s.allow_read;
    allow_create = normalize_patterns s.allow_create;
    allow_edit = normalize_patterns s.allow_edit;
    allow_delete = normalize_patterns s.allow_delete;
    deny = normalize_patterns s.deny;
  }

  -- Whether `NewFilePolicy` takes the patterns.
  abbrev pub takes : FilePolicySpec → Bool
  unfolding all_valid
  takes s =
      all_valid s.allow_read
      && all_valid s.allow_create
      && all_valid s.allow_edit
      && all_valid s.allow_delete
      && all_valid s.deny

  -- `NewFilePolicy`: `none` is its error, and `some none` no policy.
  unfoldable pub new_file_policy : Bytes → Option FilePolicySpec → Option (Option FilePolicy)
  unfolding normalize_patterns takes is_enabled clean
  new_file_policy root none = some none
  new_file_policy root (some s) =
      let spec = normalized s in
      if takes spec
      then some (if is_enabled spec then some (record { root = clean root; spec = spec }) else none)
      else none

  -- The checks behind `resolve`, on the path from the root and the absolute one.
  unfoldable pub read_verdict : FileSystem → FilePolicySpec → Bytes × Bytes → Verdict
  unfolding matches_any file_exists
  read_verdict fs s (r, abs) =
      if matches_any r s.deny
      then denied
      else if is_nil s.allow_read || not (matches_any r s.allow_read)
      then denied
      else if file_exists fs abs
      then allowed
      else missing

  unfoldable pub write_verdict : FileSystem → FilePolicySpec → Bytes × Bytes → Verdict
  unfolding matches_any file_exists
  write_verdict fs s (r, abs) =
      if matches_any r s.deny
      then denied
      else if file_exists fs abs
      then (if is_nil s.allow_edit || not (matches_any r s.allow_edit) then denied else allowed)
      else if is_nil s.allow_create || not (matches_any r s.allow_create)
      then denied
      else allowed

  unfoldable pub delete_verdict : FileSystem → FilePolicySpec → Bytes × Bytes → Verdict
  unfolding matches_any
  delete_verdict fs s (r, abs) =
      if matches_any r s.deny
      then denied
      else if is_nil s.allow_delete || not (matches_any r s.allow_delete)
      then denied
      else allowed

  abbrev pub on_resolved : (Bytes × Bytes → Verdict) → Option (Bytes × Bytes) → Verdict
  on_resolved verdict none = outside
  on_resolved verdict (some found) = verdict found

  -- A check with one of the three verdicts; a nil policy and one that says nothing allow all.
  abbrev pub checked :
      (FilePolicySpec → Bytes × Bytes → Verdict) → Option FilePolicy → Bytes → Verdict
  unfolding resolve is_enabled
  checked verdict none target = allowed
  checked verdict (some p) target =
      if is_enabled p.spec then on_resolved (verdict p.spec) (resolve p target) else allowed

  unfoldable pub check_read : FileSystem → Option FilePolicy → Bytes → Verdict
  unfolding read_verdict checked
  check_read fs = checked (read_verdict fs)

  unfoldable pub check_write : FileSystem → Option FilePolicy → Bytes → Verdict
  unfolding write_verdict checked
  check_write fs = checked (write_verdict fs)

  unfoldable pub check_delete : FileSystem → Option FilePolicy → Bytes → Verdict
  unfolding delete_verdict checked
  check_delete fs = checked (delete_verdict fs)

  -- The search of a directory, or of nothing that `os.Stat` finds.
  unfoldable pub search_below : FilePolicySpec → Bytes → Verdict
  unfolding search_prefixes below_prefix
  search_below s r = if below_prefix r (search_prefixes [] s.allow_read) then allowed else denied

  -- `CheckSearchPath` behind `resolveAllowingRoot`.
  unfoldable pub search_verdict : FileSystem → FilePolicy → Option (Bytes × Bytes) → Verdict
  unfolding matches_any search_below check_read
  search_verdict fs p none = outside
  search_verdict fs p (some (r, abs)) =
      if matches_any r p.spec.deny
      then denied
      else if is_nil p.spec.allow_read
      then denied
      else elim (fs abs) [
        | none ↦ search_below p.spec r
        | some is_dir ↦ if is_dir then search_below p.spec r else check_read fs (some p) abs
      ]

  unfoldable pub check_search_path : FileSystem → Option FilePolicy → Bytes → Verdict
  unfolding search_verdict resolve_allowing_root is_enabled
  check_search_path fs none target = allowed
  check_search_path fs (some p) target =
      if is_enabled p.spec then search_verdict fs p (resolve_allowing_root p target) else allowed
