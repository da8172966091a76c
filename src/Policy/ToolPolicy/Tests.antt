-- ===== src/Policy/ToolPolicy/Tests.antt =====
-- A registry of two tools, filtered by a profile that is active in chats.
use brain.Policy.PathGlob.Tests.{star_or_same}
use brain.Policy.ToolRegistry.{Tool, MemRegistry, new_mem_registry, register, lookup_tool}
use brain.Policy.ToolPolicy.{
  Config, active_profiles, merge_patterns, tool_scopes_for_chat, tool_allowed, validate_config,
  filter_registry,
}
use brain.Policy.ToolPolicy.Filtered.{register-AreListed, filter_registry_lem}
use brain.Prelude.Text.{Bytes, is_bytes, bytes_eq, bytes}
use brain.Prelude.{◌≡◌, refl, true, none, some, List, [], ◌∷◌, nat_eq, string_eq}

abbrev tool_named : Bytes → Tool
tool_named n = record { name = n; schema_name = n; brain = [] }

abbrev reader : Bytes
unfolding bytes
reader = bytes "read_file"

abbrev shell : Bytes
unfolding bytes
shell = bytes "shell"

abbrev two_tools : MemRegistry
unfolding register reader shell is_bytes
two_tools =
    (register (register new_mem_registry (some (tool_named reader))).0 (some (tool_named shell))).0

abbrev no_shell : Config
unfolding bytes shell
no_shell = record {
  tool_profiles =
      (bytes "safe", some (record { include = bytes "*" ∷ []; exclude = shell ∷ [] })) ∷ [];
  active_tools = (bytes "chat", bytes " safe ,") ∷ [];
}

no_shell_valid : validate_config star_or_same (some no_shell) ≡ true
unfolding validate_config no_shell shell is_bytes
no_shell_valid = refl

abbrev in_chat : List Bytes
unfolding tool_scopes_for_chat bytes
in_chat = tool_scopes_for_chat (bytes "code") []

filter_registry_lem_example :
    lookup_tool (filter_registry star_or_same two_tools no_shell in_chat) shell ≡ none
unfolding tool_allowed merge_patterns active_profiles two_tools register no_shell in_chat shell
    reader is_bytes
filter_registry_lem_example = filter_registry_lem star_or_same two_tools no_shell in_chat shell (
    register-AreListed (register new_mem_registry (some (tool_named reader))).0
      (some (tool_named shell)) (register-AreListed new_mem_registry (some (tool_named reader)) tt))
