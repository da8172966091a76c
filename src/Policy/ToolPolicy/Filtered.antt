-- ===== src/Policy/ToolPolicy/Filtered.antt =====
-- The registry that the profiles leave.
use mathlib.Core.Path.{subst}
use mathlib.Core.Option.{some-injective}
use brain.Policy.PathGlob.{PathMatch}
use brain.Policy.ToolPolicy.{
  Config, has_name, active_profiles, merge_patterns, tool_allowed, register_allowed, filtered,
  filter_registry,
}
use brain.Policy.ToolRegistry.{
  Tool, MemRegistry, new_mem_registry, register, lookup_tool, bytes_lt, insert_name, sort_names,
  names_of, tools_at, list,
}
use brain.Prelude.Text.{Bytes, bytes_eq}
use brain.Prelude.Assoc.{lookup, insert, lookup-insert}
use brain.Prelude.{
  ◌≡◌, refl, sym, ap, ◌∙◌, inl, inr, Bool, true, false, ◌&&◌, ◌||◌, not, Option, none, some, List,
  [], ◌∷◌, if◌then◌else◌, nat_eq, string_eq, ◌==◌, Bool-cases, Option-cases, is_some, is_nil, All,
}

-- Every tool stands under its own name, which is not empty and is that of its schema.
abbrev pub IsListed : Bytes × Tool → Type 0
IsListed e = (e.0 ≡ e.1.name) × ((e.1.name == []) ≡ false) × ((e.1.schema_name == e.1.name) ≡ true)

abbrev pub AreListed : MemRegistry → Type 0
AreListed r = All IsListed r.tools

contains-insert_name :
    (k n : Bytes) (xs : List Bytes) → has_name k (insert_name n xs) ≡ (n == k) || has_name k xs
unfolding insert_name has_name
contains-insert_name k n [] = refl
contains-insert_name k n (x ∷ xs) = elim (Bool-cases (bytes_lt x n)) [
  | inl e ↦ rw (e, contains-insert_name k n xs) (swap (x == k) (n == k) (has_name k xs))
  | inr e ↦ rw e refl
]
  where
    swap : (a b c : Bool) → a || (b || c) ≡ b || (a || c)
    swap true true c = refl
    swap true false c = refl
    swap false b c = refl

has_name-sort_names : (k : Bytes) (ns : List Bytes) → has_name k (sort_names ns) ≡ has_name k ns
unfolding sort_names has_name
has_name-sort_names k [] = refl
has_name-sort_names k (n ∷ ns) =
    contains-insert_name k n (sort_names ns) ∙ ap (λ b. (n == k) || b) (has_name-sort_names k ns)

has_name-names_of :
    (k : Bytes) (tools : List (Bytes × Tool))
    → has_name k (names_of tools) ≡ is_some (lookup k tools)
unfolding names_of has_name lookup
has_name-names_of k [] = refl
has_name-names_of k ((n, t) ∷ tools) = elim (Bool-cases (n == k)) [
  | inl e ↦ rw e refl
  | inr e ↦ rw e (has_name-names_of k tools)
]

-- The first tool of a name in a list.
find : Bytes → List Tool → Option Tool
find k [] = none
find k (t ∷ ts) = let rest = find k ts in if t.name == k then some t else rest

lookup-IsListed :
    (k : Bytes) (tools : List (Bytes × Tool)) {t : Tool}
    → All IsListed tools
    → lookup k tools ≡ some t
    → IsListed (k, t)
unfolding lookup
lookup-IsListed k [] h e = absurd (cc)
lookup-IsListed k ((n, x) ∷ tools) {t} h e = elim (Bool-cases (n == k)) [
  | inl q ↦
      let same : x ≡ t = some-injective _ _ (sym (rw q refl) ∙ e) in
      subst (λ z. IsListed (k, z)) same
        (subst (λ z. IsListed (z, x)) ((bytes_eq.beq_iff n k).0 q) h.0)
  | inr q ↦ lookup-IsListed k tools h.1 (sym (rw q refl) ∙ e)
]

nothing : (b : Bool) → ◌≡◌ {A = Option Tool} (if b then none else none) none
nothing true = refl
nothing false = refl

find-tools_at :
    (k : Bytes) (tools : List (Bytes × Tool)) (ns : List Bytes)
    → All IsListed tools
    → find k (tools_at tools ns) ≡ (if has_name k ns then lookup k tools else none)
unfolding find tools_at has_name
find-tools_at k tools [] h = refl
find-tools_at k tools (n ∷ ns) h =
    let ih = find-tools_at k tools ns h in
    elim (Option-cases (lookup n tools)) [
      | inl e ↦ elim (Bool-cases (n == k)) [
        | inr q ↦ rw (e, q) ih
        | inl q ↦
            let gone : lookup k tools ≡ none =
              subst (λ z. lookup z tools ≡ none) ((bytes_eq.beq_iff n k).0 q) e in
            rw (e, q)
              (ih
                ∙ ap (λ o. if has_name k ns then o else none) gone
                ∙ nothing (has_name k ns)
                ∙ sym gone)
      ]
      | inr (t, e) ↦
          let named = (lookup-IsListed n tools h e).0 in
          elim (Bool-cases (n == k)) [
            | inr q ↦ rw (e, sym (ap (λ z. z == k) named) ∙ q, q) ih
            | inl q ↦
                let there : lookup k tools ≡ some t =
                  subst (λ z. lookup z tools ≡ some t) ((bytes_eq.beq_iff n k).0 q) e in
                rw (e, sym (ap (λ z. z == k) named) ∙ q, q) (sym there)
          ]
    ]

abbrev or_else : Option Tool → Option Tool → Option Tool
or_else none o = o
or_else (some t) o = some t

abbrev AllValid : List Tool → Type 0
AllValid = All (λ t. ((t.name == []) ≡ false) × ((t.schema_name == t.name) ≡ true))

lookup-register :
    (k : Bytes) (r : MemRegistry) (t : Tool)
    → (t.name == []) ≡ false
    → (t.schema_name == t.name) ≡ true
    → lookup k (register r (some t)).0.tools
      ≡ or_else (lookup k r.tools) (if t.name == k then some t else none)
unfolding register
lookup-register k r t named same = elim (Option-cases (lookup t.name r.tools)) [
  | inr (old, e) ↦ elim (Bool-cases (t.name == k)) [
    | inr q ↦ rw (named, same, e, q) (kept (lookup k r.tools))
    | inl q ↦
        let there : lookup k r.tools ≡ some old =
          subst (λ z. lookup z r.tools ≡ some old) ((bytes_eq.beq_iff t.name k).0 q) e in
        rw (named, same, e, q, there) refl
  ]
  | inl e ↦ elim (Bool-cases (t.name == k)) [
    | inr q ↦ rw (named, same, e, lookup-insert t.name k t r.tools, q) (kept (lookup k r.tools))
    | inl q ↦
        let gone : lookup k r.tools ≡ none =
          subst (λ z. lookup z r.tools ≡ none) ((bytes_eq.beq_iff t.name k).0 q) e in
        rw (named, same, e, lookup-insert t.name k t r.tools, q, gone) refl
  ]
]
  where
    kept : (o : Option Tool) → o ≡ or_else o none
    kept none = refl
    kept (some x) = refl

insert-IsListed :
    (t : Tool) (tools : List (Bytes × Tool))
    → IsListed (t.name, t)
    → All IsListed tools
    → All IsListed (insert t.name t tools)
unfolding insert
insert-IsListed t [] h k = (h, tt)
insert-IsListed t ((n, x) ∷ tools) h k = elim (Bool-cases (n == t.name)) [
  | inl e ↦ rw e (h, k.1)
  | inr e ↦ rw e (k.0, insert-IsListed t tools h k.1)
]

-- Register keeps every tool under its name.
pub register-AreListed :
    (r : MemRegistry) (t : Option Tool) → AreListed r → AreListed (register r t).0
unfolding register
register-AreListed r none h = h
register-AreListed r (some t) h = elim (Bool-cases (t.name == [])) [
  | inl e ↦ rw e h
  | inr e ↦ elim (Bool-cases (t.schema_name == t.name)) [
    | inr s ↦ rw (e, s) h
    | inl s ↦ elim (Bool-cases (is_some (lookup t.name r.tools))) [
      | inl q ↦ rw (e, s, q) h
      | inr q ↦ rw (e, s, q) (insert-IsListed t r.tools (refl, e, s) h)
    ]
  ]
]

or_none : (o : Option Tool) → or_else o none ≡ o
or_none none = refl
or_none (some t) = refl

or_else-some :
    (o : Option Tool) (t : Tool) (p : Option Tool)
    → or_else (or_else o (some t)) p ≡ or_else o (some t)
or_else-some none t p = refl
or_else-some (some x) t p = refl

only_some : (o : Option Tool) → (if is_some o then o else none) ≡ o
only_some none = refl
only_some (some t) = refl

turned : (b : Bool) (o : Option Tool) → (if b then o else none) ≡ (if not b then none else o)
turned true o = refl
turned false o = refl

module _ (path_match : PathMatch) where
  abbrev allowed_only : Bytes → List Bytes → List Bytes → Option Tool → Option Tool
  allowed_only k include exclude o = if tool_allowed path_match k include exclude then o else none

  lookup-register_allowed :
      (k : Bytes) (include exclude : List Bytes) (r : MemRegistry) (ts : List Tool)
      → AllValid ts
      → lookup k (register_allowed path_match include exclude r ts).tools
        ≡ or_else (lookup k r.tools) (allowed_only k include exclude (find k ts))
  unfolding register_allowed find
  lookup-register_allowed k include exclude r [] h = sym (
      ap (or_else (lookup k r.tools)) (nothing (tool_allowed path_match k include exclude))
      ∙ or_none (lookup k r.tools))
  lookup-register_allowed k include exclude r (t ∷ ts) h =
      let allowed = tool_allowed path_match t.name include exclude in
      let next = λ (b : Bool). if b then (register r (some t)).0 else r in
      let starts = λ (b : Bool) (e : allowed ≡ b).
        ap (λ (c : Bool). lookup k (register_allowed path_match include exclude (next c) ts).tools)
          e
        ∙ lookup-register_allowed k include exclude (next b) ts h.1 in
      elim (Bool-cases allowed) [
        | inr a ↦
            starts false a
            ∙ ap (or_else (lookup k r.tools)) (elim (Bool-cases (t.name == k)) [
              | inr q ↦ rw q refl
              | inl q ↦
                  let none_too =
                    sym (
                      ap (λ (z : Bytes). tool_allowed path_match z include exclude)
                        ((bytes_eq.beq_iff t.name k).0 q))
                    ∙ a in
                  rw none_too refl
            ])
        | inl a ↦
            starts true a
            ∙ ap (λ o. or_else o (allowed_only k include exclude (find k ts)))
                (lookup-register k r t h.0.0 h.0.1)
            ∙ elim (Bool-cases (t.name == k)) [
              | inr q ↦ rw q (
                  ap (λ o. or_else o (allowed_only k include exclude (find k ts)))
                    (or_none (lookup k r.tools)))
              | inl q ↦
                  let same =
                    sym (
                      ap (λ (z : Bytes). tool_allowed path_match z include exclude)
                        ((bytes_eq.beq_iff t.name k).0 q))
                    ∙ a in
                  rw (q, same) (or_else-some (lookup k r.tools) t (find k ts))
            ]
      ]

  tools_at-AllValid :
      (tools : List (Bytes × Tool)) (ns : List Bytes)
      → All IsListed tools
      → AllValid (tools_at tools ns)
  unfolding tools_at
  tools_at-AllValid tools [] h = tt
  tools_at-AllValid tools (n ∷ ns) h = elim (Option-cases (lookup n tools)) [
    | inl e ↦ rw e (tools_at-AllValid tools ns h)
    | inr (t, e) ↦
        let listed = lookup-IsListed n tools h e in
        rw e ((listed.1, listed.2), tools_at-AllValid tools ns h)
  ]

  -- The filtered registry holds the tools that the patterns allow, and no others.
  lookup-filtered :
      (reg : MemRegistry) (include exclude : List Bytes) (k : Bytes)
      → AreListed reg
      → lookup_tool (filtered path_match reg (include, exclude)) k
        ≡ allowed_only k include exclude (lookup_tool reg k)
  unfolding filtered lookup_tool list
  lookup-filtered reg include exclude k h =
      let names = sort_names (names_of reg.tools) in
      lookup-register_allowed k include exclude new_mem_registry (tools_at reg.tools names)
        (tools_at-AllValid reg.tools names h)
      ∙ unfold lookup in
        ap (allowed_only k include exclude) (
          find-tools_at k reg.tools names h
          ∙ ap (λ b. if b then lookup k reg.tools else none)
              (has_name-sort_names k (names_of reg.tools) ∙ has_name-names_of k reg.tools)
          ∙ only_some (lookup k reg.tools))

  -- Whether a configuration restricts anything for the scopes.
  abbrev pub is_restricted : Config → List Bytes → Bool
  is_restricted cfg scopes =
      not (is_nil cfg.tool_profiles || is_nil cfg.active_tools)
      && not (is_nil (active_profiles cfg scopes))

  -- FilterRegistry of a registry whose tools stand under their names: where profiles are active for
  -- the scopes, Lookup of a name in the result gives the tool of the registry if the patterns of
  -- these profiles together allow the name, and nothing otherwise; where none is active, it gives
  -- what it gave before.
  pub filter_registry_lem :
      (reg : MemRegistry) (cfg : Config) (scopes : List Bytes) (k : Bytes)
      → AreListed reg
      → let patterns = merge_patterns cfg (active_profiles cfg scopes) in
        lookup_tool (filter_registry path_match reg cfg scopes) k ≡ (
          if is_restricted cfg scopes && not (tool_allowed path_match k patterns.0 patterns.1)
          then none
          else lookup_tool reg k)
  unfolding filter_registry
  filter_registry_lem reg cfg scopes k h =
      elim (Bool-cases (is_nil cfg.tool_profiles || is_nil cfg.active_tools)) [
        | inl e ↦ rw e refl
        | inr e ↦ elim (Bool-cases (is_nil (active_profiles cfg scopes))) [
          | inl a ↦ rw (e, a) refl
          | inr a ↦
              let patterns = merge_patterns cfg (active_profiles cfg scopes) in
              rw (e, a)
                (lookup-filtered reg patterns.0 patterns.1 k h
                  ∙ turned (tool_allowed path_match k patterns.0 patterns.1) (lookup_tool reg k))
        ]
      ]
