-- ===== src/Policy/ToolRegistry.antt =====
-- tool/mem_registry.go: the registry of tools by name. Of a tool there is its name and what its
-- schema says of name and brain.
use brain.Prelude.Text.{Bytes, bytes_eq}
use brain.Prelude.Assoc.{lookup, insert}
use brain.Prelude.{
  String, Bool, true, false, ◌&&◌, ◌||◌, not, Option, none, some, List, [], ◌∷◌, ltb, if◌then◌else◌,
  nat_eq, string_eq, ◌==◌, is_some,
}
use brain.Errors.Codes

pub record Tool : Type 0 where
  pub name : Bytes
  pub schema_name : Bytes
  pub brain : Bytes

pub record MemRegistry : Type 0 where
  pub tools : List (Bytes × Tool)

abbrev pub new_mem_registry : MemRegistry
new_mem_registry = record { tools = [] }

-- `none` is a nil tool.
unfoldable pub register : MemRegistry → Option Tool → MemRegistry × Option String
unfolding lookup insert
register r none = (r, some Codes.invariant_violated)
register r (some t) =
    if t.name == []
    then (r, some Codes.tool_input_invalid)
    else if not (t.schema_name == t.name)
    then (r, some Codes.tool_input_invalid)
    else if is_some (lookup t.name r.tools)
    then (r, some Codes.invariant_violated)
    else (record r { tools = insert t.name t r.tools }, none)

unfoldable pub lookup_tool : MemRegistry → Bytes → Option Tool
unfolding lookup
lookup_tool r name = lookup name r.tools

-- Go's `<` on texts.
unfoldable pub bytes_lt : Bytes → Bytes → Bool
bytes_lt s [] = false
bytes_lt [] (b ∷ t) = true
bytes_lt (a ∷ s) (b ∷ t) = ltb a b || (a == b && bytes_lt s t)

unfoldable pub insert_name : Bytes → List Bytes → List Bytes
unfolding bytes_lt
insert_name n [] = n ∷ []
insert_name n (x ∷ xs) =
    let rest = insert_name n xs in if bytes_lt x n then x ∷ rest else n ∷ x ∷ xs

-- `sort.Strings`.
unfoldable pub sort_names : List Bytes → List Bytes
unfolding insert_name
sort_names [] = []
sort_names (n ∷ ns) = insert_name n (sort_names ns)

unfoldable pub names_of : List (Bytes × Tool) → List Bytes
names_of [] = []
names_of ((n, t) ∷ tools) = n ∷ names_of tools

abbrev pub in_front : Option Tool → List Tool → List Tool
in_front none ts = ts
in_front (some t) ts = t ∷ ts

-- The tools that stand under the names.
unfoldable pub tools_at : List (Bytes × Tool) → List Bytes → List Tool
unfolding lookup
tools_at tools [] = []
tools_at tools (n ∷ ns) = in_front (lookup n tools) (tools_at tools ns)

unfoldable pub list : MemRegistry → List Tool
unfolding tools_at sort_names names_of
list r = tools_at r.tools (sort_names (names_of r.tools))

unfoldable pub of_brain : Bytes → List Tool → List Tool
of_brain kind [] = []
of_brain kind (t ∷ ts) =
    let rest = of_brain kind ts in if kind == [] || t.brain == kind then t ∷ rest else rest

-- `ListByBrain`: sorted by name too.
unfoldable pub list_by_brain : MemRegistry → Bytes → List Tool
unfolding of_brain list
list_by_brain r kind = of_brain kind (list r)
