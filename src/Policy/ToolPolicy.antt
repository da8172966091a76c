-- ===== src/Policy/ToolPolicy.antt =====
-- toolpolicy/toolpolicy.go: which tools the configured profiles leave in a registry. The maps of the
-- configuration are association lists; reading the file is left out.
pub mod Filtered
mod Tests
use brain.Policy.ToolRegistry.{Tool, MemRegistry, new_mem_registry, register, list}
use brain.Policy.PathGlob.{PathMatch, or_false}
use brain.Prelude.Text.Paths.{split_at, join_with}
use brain.Prelude.Text.{Bytes, bytes_eq, bytes, trim_space}
use brain.Prelude.Assoc.{lookup}
use brain.Prelude.{
  ℕ, Bool, true, false, ◌&&◌, ◌||◌, not, Option, none, some, List, [], ◌∷◌, ◌++◌, leb,
  if◌then◌else◌, nat_eq, string_eq, ◌==◌, is_some, is_nil,
}

pub record Profile : Type 0 where
  pub include : List Bytes
  pub exclude : List Bytes

-- A profile may be null.
pub record Config : Type 0 where
  pub tool_profiles : List (Bytes × Option Profile)
  pub active_tools : List (Bytes × Bytes)

abbrev pub comma : ℕ
comma = 44

unfoldable pub non_blank : List Bytes → List Bytes
unfolding trim_space
non_blank [] = []
non_blank (part ∷ parts) =
    let rest = non_blank parts in let p = trim_space part in if p == [] then rest else p ∷ rest

unfoldable pub split_csv : Bytes → List Bytes
unfolding non_blank split_at
split_csv raw = non_blank (split_at comma raw)

-- `[a-z0-9_-]`
abbrev is_name_byte : ℕ → Bool
is_name_byte b = (leb 97 b && leb b 122) || (leb 48 b && leb b 57) || b == 95 || b == 45

unfoldable pub all_name_bytes : Bytes → Bool
all_name_bytes [] = true
all_name_bytes (b ∷ s) = is_name_byte b && all_name_bytes s

-- `^[a-z0-9_-]+$`, which takes no empty text.
unfoldable pub is_profile_name : Bytes → Bool
unfolding all_name_bytes
is_profile_name s = not (s == []) && all_name_bytes s

-- `ValidateProfileName`: whether it returns no error.
unfoldable pub validate_profile_name : Bytes → Bool
unfolding is_profile_name trim_space
validate_profile_name name = is_profile_name (trim_space name)

unfoldable pub all_profile_names : List Bytes → Bool
unfolding is_profile_name
all_profile_names [] = true
all_profile_names (s ∷ ss) = is_profile_name s && all_profile_names ss

-- `ValidateScope`: names with dots between them.
unfoldable pub validate_scope : Bytes → Bool
unfolding all_profile_names split_at trim_space
validate_scope scope = all_profile_names (split_at 46 (trim_space scope))

-- `cfg.ToolProfiles[name]`, null where the map has none.
abbrev pub profile_at : Config → Bytes → Option Profile
profile_at cfg name = elim (lookup name cfg.tool_profiles) [ none ↦ none | some p ↦ p ]

unfoldable pub are_known : Config → List Bytes → Bool
unfolding validate_profile_name lookup
are_known cfg [] = true
are_known cfg (p ∷ ps) = validate_profile_name p && is_some (profile_at cfg p) && are_known cfg ps

unfoldable pub validate_active_tools_value : Config → Bytes → Bytes → Bool
unfolding validate_scope split_csv are_known
validate_active_tools_value cfg scope raw =
    validate_scope scope && not (is_nil (split_csv raw)) && are_known cfg (split_csv raw)

unfoldable pub kept_profiles : Config → List Bytes → List Bytes
unfolding lookup
kept_profiles cfg [] = []
kept_profiles cfg (p ∷ ps) =
    let rest = kept_profiles cfg ps in if is_some (profile_at cfg p) then p ∷ rest else rest

unfoldable pub prune_entries : Config → List (Bytes × Bytes) → List (Bytes × Bytes)
unfolding kept_profiles split_csv join_with
prune_entries cfg [] = []
prune_entries cfg ((scope, raw) ∷ entries) =
    let rest = prune_entries cfg entries in
    let kept = kept_profiles cfg (split_csv raw) in
    if is_nil kept then rest else (scope, join_with comma kept) ∷ rest

unfoldable pub prune_missing_profiles : Config → Config
unfolding prune_entries
prune_missing_profiles cfg = record cfg { active_tools = prune_entries cfg cfg.active_tools }

unfoldable pub has_name : Bytes → List Bytes → Bool
has_name n [] = false
has_name n (x ∷ xs) = x == n || has_name n xs

-- The names that have not been seen, behind the others.
unfoldable pub add_unseen : List Bytes → List Bytes → List Bytes
unfolding has_name
add_unseen profiles [] = profiles
add_unseen profiles (n ∷ ns) =
    add_unseen (if n == [] || has_name n profiles then profiles else profiles ++ n ∷ []) ns

abbrev or_empty : Option Bytes → Bytes
or_empty none = []
or_empty (some s) = s

unfoldable pub active_from : Config → List Bytes → List Bytes → List Bytes
unfolding add_unseen split_csv trim_space lookup
active_from cfg profiles [] = profiles
active_from cfg profiles (scope ∷ scopes) =
    let raw = trim_space (or_empty (lookup scope cfg.active_tools)) in
    active_from cfg (if raw == [] then profiles else add_unseen profiles (split_csv raw)) scopes

unfoldable pub active_profiles : Config → List Bytes → List Bytes
unfolding active_from
active_profiles cfg scopes = active_from cfg [] scopes

-- `MergePatterns`.
unfoldable pub merge_patterns : Config → List Bytes → List Bytes × List Bytes
unfolding lookup
merge_patterns cfg [] = ([], [])
merge_patterns cfg (name ∷ names) =
    let rest = merge_patterns cfg names in
    elim (profile_at cfg name) [ none ↦ rest | some p ↦ (p.include ++ rest.0, p.exclude ++ rest.1) ]

-- `chat.`, and so on.
abbrev scope_of : Bytes → Bytes → List Bytes
scope_of head kind = if kind == [] then [] else (head ++ 46 ∷ kind) ∷ []

unfoldable pub tool_scopes_for_chat : Bytes → Bytes → List Bytes
unfolding bytes
tool_scopes_for_chat brain_kind mode =
    let chat = bytes "chat" in
    chat ∷ scope_of chat brain_kind
    ++ scope_of chat mode
    ++ (if brain_kind == [] || mode == [] then [] else (chat ++ 46 ∷ brain_kind ++ 46 ∷ mode) ∷ [])

unfoldable pub tool_scopes_for_run : Bytes → List Bytes
unfolding bytes
tool_scopes_for_run brain_kind = bytes "run" ∷ scope_of (bytes "run") brain_kind

unfoldable pub tool_scopes_for_delegate : Bytes → List Bytes
unfolding bytes
tool_scopes_for_delegate brain_kind = bytes "delegate" ∷ scope_of (bytes "delegate") brain_kind

module _ (path_match : PathMatch) where
  -- One round of `MatchesAny`.
  abbrev pub pattern_matches : Bytes → Bytes → Bool
  pattern_matches name pattern =
      not (pattern == [])
      && (pattern == 42 ∷ [] || pattern == name || or_false (path_match pattern name))

  unfoldable pub matches_any : Bytes → List Bytes → Bool
  unfolding trim_space
  matches_any name [] = false
  matches_any name (pattern ∷ patterns) =
      pattern_matches name (trim_space pattern) || matches_any name patterns

  unfoldable pub tool_allowed : Bytes → List Bytes → List Bytes → Bool
  unfolding matches_any
  tool_allowed name include exclude =
      if not (is_nil include) && not (matches_any name include)
      then false
      else if matches_any name exclude
      then false
      else true

  unfoldable pub validate_patterns : List Bytes → Bool
  unfolding trim_space
  validate_patterns [] = true
  validate_patterns (pattern ∷ patterns) =
      not (trim_space pattern == [])
      && is_some (path_match (trim_space pattern) (bytes "probe"))
      && validate_patterns patterns

  unfoldable pub validate_profiles : List (Bytes × Option Profile) → Bool
  unfolding validate_profile_name validate_patterns
  validate_profiles [] = true
  validate_profiles ((name, none) ∷ profiles) = false
  validate_profiles ((name, some p) ∷ profiles) =
      validate_profile_name name
      && validate_patterns p.include
      && validate_patterns p.exclude
      && validate_profiles profiles

  unfoldable pub validate_active : Config → List (Bytes × Bytes) → Bool
  unfolding validate_active_tools_value
  validate_active cfg [] = true
  validate_active cfg ((scope, raw) ∷ entries) =
      validate_active_tools_value cfg scope raw && validate_active cfg entries

  -- `ValidateConfig`: whether it returns no error.
  unfoldable pub validate_config : Option Config → Bool
  unfolding validate_profiles validate_active
  validate_config none = true
  validate_config (some cfg) =
      validate_profiles cfg.tool_profiles && validate_active cfg cfg.active_tools

  unfoldable pub register_allowed : List Bytes → List Bytes → MemRegistry → List Tool → MemRegistry
  unfolding tool_allowed register
  register_allowed include exclude r [] = r
  register_allowed include exclude r (t ∷ ts) =
      register_allowed include exclude
        (if tool_allowed t.name include exclude then (register r (some t)).0 else r) ts

  -- The filtered registry for the profiles that are active.
  unfoldable pub filtered : MemRegistry → List Bytes × List Bytes → MemRegistry
  unfolding register_allowed list
  filtered reg (include, exclude) = register_allowed include exclude new_mem_registry (list reg)

  -- `FilterRegistry` of a registry and a configuration that are not nil.
  unfoldable pub filter_registry : MemRegistry → Config → List Bytes → MemRegistry
  unfolding filtered active_profiles merge_patterns
  filter_registry reg cfg scopes =
      if is_nil cfg.tool_profiles || is_nil cfg.active_tools
      then reg
      else if is_nil (active_profiles cfg scopes)
      then reg
      else filtered reg (merge_patterns cfg (active_profiles cfg scopes))
