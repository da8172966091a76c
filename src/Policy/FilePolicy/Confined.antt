-- ===== src/Policy/FilePolicy/Confined.antt =====
-- A checked path stays below the root of its policy.
use brain.Policy.PathGlob.Matches.{match_iff, Matches}
use brain.Policy.PathGlob.{split, normalize, or_false, validate, match, PathMatch}
use brain.Policy.FilePolicy.{
  or_false, match, validate, PathMatch, FilePolicySpec, FilePolicy, Verdict, allowed, FileSystem,
  file_exists, is_enabled, unless_outside, target_path, resolve_allowing_root, unless_root, resolve,
  matches_any, read_verdict, write_verdict, on_resolved, checked, check_read, check_write,
}
use brain.Prelude.Text.Paths.Cleaned.{IsElement, cleaned-All, is_abs-clean, is_outside, rel_inside}
use brain.Prelude.Text.Paths.{slash, dot, join_with, is_abs, cleaned, join_paths, rel}
use brain.Prelude.Text.{Bytes, bytes_eq}
use brain.Prelude.{
  ◌≡◌, refl, sym, ap, ◌∙◌, ◌↔◌, ◌⊎◌, inl, inr, Bool, true, false, ◌||◌, Option, none, some, List,
  [], ◌∷◌, ◌++◌, arith, if◌then◌else◌, nat_eq, string_eq, ◌==◌, Bool-cases, All,
}
use mathlib.Core.Path.{subst}
use mathlib.Core.Bool.{false≢true}
use mathlib.Core.Option.{some-injective}

-- A path below the root: from the root by the names of `r`, one at least, none of which is `.`
-- or `..`.
pub record IsBelow (root abs r : Bytes) : Type 0 where
  pub first : Bytes
  pub others : List Bytes
  pub way : r ≡ join_with slash (first ∷ others)
  pub names : All IsElement (first ∷ others)
  pub from_root : cleaned abs ≡ cleaned root ++ first ∷ others

is_abs-join_paths : (s t : Bytes) → is_abs s ≡ true → is_abs (join_paths s t) ≡ true
unfolding join_paths
is_abs-join_paths [] t h = absurd (unfold is_abs in cc)
is_abs-join_paths (b ∷ s) [] h = is_abs-clean (b ∷ s) h
is_abs-join_paths (b ∷ s) (c ∷ t) h = is_abs-clean ((b ∷ s) ++ slash ∷ c ∷ t) (unfold is_abs in h)

is_abs-target_path :
    (p : FilePolicy) (target : Bytes) → is_abs p.root ≡ true → is_abs (target_path p target) ≡ true
is_abs-target_path p target h = elim (Bool-cases (is_abs target)) [
  | inl e ↦ rw e (is_abs-clean target e)
  | inr e ↦ rw e (is_abs-clean (join_paths p.root target) (is_abs-join_paths p.root target h))
]

All-drop {ℓ κ} : {A : Type ℓ} (P : A → Type κ) (xs ys : List A) → All P (xs ++ ys) → All P ys
All-drop P [] ys h = h
All-drop P (x ∷ xs) ys h = All-drop P xs ys h.1

unless_outside-found :
    (abs : Bytes) (o : Option Bytes) {found : Bytes × Bytes}
    → unless_outside abs o ≡ some found
    → (o ≡ some found.0) × (found.1 ≡ abs) × (is_outside found.0 ≡ false)
unless_outside-found abs none e = absurd (cc)
unless_outside-found abs (some r) {found} e = elim (Bool-cases (is_outside r)) [
  | inl out ↦ absurd (none_found (sym (rw out refl) ∙ e))
  | inr inside ↦
      let same : (r, abs) ≡ found = some-injective _ _ (sym (rw inside refl) ∙ e) in
      let r_same : r ≡ found.0 = ap (λ (q : Bytes × Bytes). q.0) same in
      (
        ap some r_same,
        sym (ap (λ (q : Bytes × Bytes). q.1) same),
        ap is_outside (sym r_same) ∙ inside,
      )
]
  where
    none_found : ◌≡◌ {A = Option (Bytes × Bytes)} none (some found) → ⊥
    none_found h = absurd (cc)

unless_root-found :
    (o : Option (Bytes × Bytes)) {found : Bytes × Bytes}
    → unless_root o ≡ some found
    → (o ≡ some found) × ((found.0 == dot) ≡ false)
unless_root-found none e = absurd (cc)
unless_root-found (some q) {found} e = elim (Bool-cases (q.0 == dot)) [
  | inl out ↦ absurd (none_found (sym (rw out refl) ∙ e))
  | inr inside ↦
      let same : q ≡ found = some-injective _ _ (sym (rw inside refl) ∙ e) in
      (ap some same, ap (λ (z : Bytes × Bytes). z.0 == dot) (sym same) ∙ inside)
]
  where
    none_found : ◌≡◌ {A = Option (Bytes × Bytes)} none (some found) → ⊥
    none_found h = absurd (cc)

-- What `resolve` finds stands below the root.
pub resolve-IsBelow :
    (p : FilePolicy) (target : Bytes) {found : Bytes × Bytes}
    → is_abs p.root ≡ true
    → resolve p target ≡ some found
    → (found.1 ≡ target_path p target) × IsBelow p.root found.1 found.0
unfolding resolve resolve_allowing_root
resolve-IsBelow p target {found} h e =
    let (whole, no_dot) = unless_root-found (resolve_allowing_root p target) e in
    let abs = target_path p target in
    let abs_root = is_abs-target_path p target h in
    let (way, same, inside) = unless_outside-found abs (rel p.root abs) whole in
    let (x, xs, split, shown) = rel_inside p.root abs h abs_root way inside no_dot in
    (
      same,
      record {
        first = x;
        others = xs;
        way = shown;
        names =
            All-drop IsElement (cleaned p.root) (x ∷ xs)
              (subst (All IsElement) split (cleaned-All abs abs_root));
        from_root = ap cleaned same ∙ split;
      },
    )

module _ (path_match : PathMatch) where
  -- One of the patterns is well-formed and matches the path.
  abbrev pub AnyMatches : Bytes → List Bytes → Type 0
  AnyMatches r [] = ⊥
  AnyMatches r (pattern ∷ patterns) =
      ((validate path_match (normalize pattern) ≡ true)
        × Matches path_match (split (normalize pattern)) (split (normalize r)))
      ⊎ AnyMatches r patterns

  match-valid :
      (pattern target : Bytes)
      → match path_match pattern target ≡ some true
      → validate path_match (normalize pattern) ≡ true
  unfolding match
  match-valid pattern target h = elim (Bool-cases (validate path_match (normalize pattern))) [
    | inl e ↦ e
    | inr e ↦ absurd (none_found (sym (rw e refl) ∙ h))
  ]
    where
      none_found : ◌≡◌ {A = Option Bool} none (some true) → ⊥
      none_found q = absurd (cc)

  or_false-true : (o : Option Bool) → or_false o ≡ true → o ≡ some true
  or_false-true none h = absurd (cc)
  or_false-true (some b) h = ap some h

  pub matches_any_iff :
      (r : Bytes) (patterns : List Bytes)
      → (matches_any path_match r patterns ≡ true) ↔ AnyMatches r patterns
  unfolding matches_any
  matches_any_iff r [] = ((λ h. absurd (false≢true h)), (λ h. absurd h))
  matches_any_iff r (pattern ∷ patterns) =
      let rest = matches_any_iff r patterns in
      let this = match_iff path_match pattern r in
      (
        λ h. elim (Bool-cases (or_false (match path_match pattern r))) [
          | inl e ↦
              let found = or_false-true _ e in
              let valid = match-valid pattern r found in inl (valid, (this valid).0 found)
          | inr e ↦ inr (rest.0 (sym (rw e refl) ∙ h))
        ],
        back rest.1,
      )
    where
      back :
          (AnyMatches r patterns → matches_any path_match r patterns ≡ true)
          → AnyMatches r (pattern ∷ patterns)
          → or_false (match path_match pattern r) || matches_any path_match r patterns ≡ true
      back others (inl (valid, m)) = rw ((match_iff path_match pattern r valid).1 m) refl
      back others (inr m) = elim (Bool-cases (or_false (match path_match pattern r))) [
        | inl e ↦ rw e refl
        | inr e ↦ rw e (others m)
      ]

  not_matched :
      (r : Bytes) (patterns : List Bytes)
      → matches_any path_match r patterns ≡ false
      → ¬ AnyMatches r patterns
  not_matched r patterns h m = absurd (false≢true (sym h ∙ (matches_any_iff r patterns).1 m))

  -- A path that a check with a verdict lets pass has been resolved, and the verdict was yes.
  passed :
      (verdict : FilePolicySpec → Bytes × Bytes → Verdict) (p : FilePolicy) (target : Bytes)
      → is_enabled p.spec ≡ true
      → is_abs p.root ≡ true
      → checked path_match verdict (some p) target ≡ allowed
      → (r : Bytes) × IsBelow p.root (target_path p target) r
        × (verdict p.spec (r, target_path p target) ≡ allowed)
  unfolding checked resolve
  passed verdict p target on root h =
      let h' : on_resolved path_match (verdict p.spec) (resolve p target) ≡ allowed =
        sym (rw on refl) ∙ h in
      go (resolve p target) refl h'
    where
      go :
          (o : Option (Bytes × Bytes))
          → resolve p target ≡ o
          → on_resolved path_match (verdict p.spec) o ≡ allowed
          → (r : Bytes) × IsBelow p.root (target_path p target) r
            × (verdict p.spec (r, target_path p target) ≡ allowed)
      go none e k = absurd (cc)
      go (some (r, abs)) e k =
          let (same, below) = resolve-IsBelow p target root e in
          (
            r,
            subst (λ a. IsBelow p.root a r) same below,
            sym (ap (λ a. verdict p.spec (r, a)) same) ∙ k,
          )

  -- With a policy that is in force and an absolute root, CheckRead lets a path pass only if it leads
  -- from the root down by names alone, matches a pattern that allows reading and none that denies,
  -- and is a file.
  pub check_read_confined :
      (fs : FileSystem) (p : FilePolicy) (target : Bytes)
      → is_enabled p.spec ≡ true
      → is_abs p.root ≡ true
      → check_read path_match fs (some p) target ≡ allowed
      → (r : Bytes) × IsBelow p.root (target_path p target) r
        × AnyMatches r p.spec.allow_read
        × (¬ AnyMatches r p.spec.deny)
        × (file_exists fs (target_path p target) ≡ true)
  unfolding check_read read_verdict
  check_read_confined fs p target on root h =
      let (r, below, k) = passed (read_verdict path_match fs) p target on root h in
      let s = p.spec in
      (
        r,
        below,
        (matches_any_iff r s.allow_read).0 (ground arith),
        not_matched r s.deny (ground arith),
        ground arith,
      )

  -- With a policy that is in force and an absolute root, CheckWrite lets a path pass only if it leads
  -- from the root down by names alone and matches no pattern that denies; and it matches a pattern
  -- that allows editing if it is a file, and one that allows creation if it is none.
  pub check_write_confined :
      (fs : FileSystem) (p : FilePolicy) (target : Bytes)
      → is_enabled p.spec ≡ true
      → is_abs p.root ≡ true
      → check_write path_match fs (some p) target ≡ allowed
      → (r : Bytes) × IsBelow p.root (target_path p target) r
        × (¬ AnyMatches r p.spec.deny)
        × AnyMatches r (
            if file_exists fs (target_path p target)
            then p.spec.allow_edit
            else p.spec.allow_create)
  unfolding check_write write_verdict
  check_write_confined fs p target on root h =
      let (r, below, k) = passed (write_verdict path_match fs) p target on root h in
      let s = p.spec in
      let by_file = file_exists fs (target_path p target) in
      let patterns = if by_file then s.allow_edit else s.allow_create in
      (
        r,
        below,
        not_matched r s.deny (ground arith),
        (matches_any_iff r patterns).0 (elim (Bool-cases by_file) [
          | inl e ↦ rw e (ground arith)
          | inr e ↦ rw e (ground arith)
        ]),
      )
