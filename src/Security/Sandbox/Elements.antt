-- ===== src/Security/Sandbox/Elements.antt =====
-- The byte tests of `matchesAny` on cleaned absolute paths are tests of their elements.

use brain.Security.Sandbox.{FsPolicy, entry_matches, matches_any, denial, check_read}
use brain.Prelude.Assoc.{beq_refl}
use brain.Prelude.Text.Paths.Cleaned.{
  NoByte, IsElement, cleaned-All, split_at_front, split_at-join_with, All-NoByte, abs_clean,
}
use brain.Prelude.Text.Paths.{
  slash, has_prefix, has_suffix, split_at, join_with, is_abs, cleaned, clean,
}
use brain.Prelude.Text.{Bytes, is_bytes, bytes_eq}
use brain.Prelude.{
  ℕ, String, ◌≡◌, refl, sym, ap, ◌∙◌, ◌↔◌, ◌⊎◌, inl, inr, Bool, true, false, ◌||◌, not, Option,
  none, List, [], ◌∷◌, ◌++◌, arith, if◌then◌else◌, nat_eq, string_eq, ◌==◌, Bool-cases, All,
}
use mathlib.Core.Path.{subst}
use mathlib.Core.Bool.{false≢true}
use mathlib.Core.List.{reverse, reverse-append, append_assoc, append-nil}

-- Names that a path has behind a directory: none, for the directory itself.
abbrev pub IsUnder : Bytes → Bytes → Type 0
IsUnder p s = (rest : List Bytes) × (cleaned s ≡ cleaned p ++ rest)

abbrev pub AnyAbove : List Bytes → Bytes → Type 0
AnyAbove [] s = ⊥
AnyAbove (p ∷ list) s = IsUnder p s ⊎ AnyAbove list s

-- An entry that is an absolute path and cleaned.
abbrev pub IsEntry : Bytes → Type 0
IsEntry p = (is_abs p ≡ true) × (clean p ≡ p)

has_prefix_front : (u v : Bytes) → has_prefix (u ++ v) u ≡ true
unfolding has_prefix
has_prefix_front [] v = refl
has_prefix_front (a ∷ u) v = rw (beq_refl a) (has_prefix_front u v)

has_prefix-split : (s u : Bytes) → has_prefix s u ≡ true → (v : Bytes) × (s ≡ u ++ v)
unfolding has_prefix
has_prefix-split s [] h = (s, refl)
has_prefix-split [] (p ∷ u) h = absurd (cc)
has_prefix-split (b ∷ s) (p ∷ u) h =
    let (v, e) = has_prefix-split s u (ground arith) in
    let same : b ≡ p = (nat_eq.beq_iff b p).0 (ground arith) in
    (v, ap (λ t. b ∷ t) e ∙ ap (λ c. c ∷ (u ++ v)) same)

join-append :
    (x : Bytes) (xs : List Bytes) (r : Bytes) (rs : List Bytes)
    → join_with slash ((x ∷ xs) ++ r ∷ rs)
      ≡ join_with slash (x ∷ xs) ++ slash ∷ join_with slash (r ∷ rs)
unfolding join_with
join-append x [] r rs = refl
join-append x (y ∷ xs) r rs =
    ap (λ t. x ++ slash ∷ t) (join-append y xs r rs)
    ∙ sym (append_assoc x (slash ∷ join_with slash (y ∷ xs)) (slash ∷ join_with slash (r ∷ rs)))

split-front :
    (x : Bytes) (xs : List Bytes) (w : Bytes)
    → All (NoByte slash) (x ∷ xs)
    → split_at slash (join_with slash (x ∷ xs) ++ slash ∷ w) ≡ (x ∷ xs) ++ split_at slash w
unfolding join_with
split-front x [] w h = split_at_front slash x w h.0
split-front x (y ∷ xs) w h =
    ap (split_at slash) (append_assoc x (slash ∷ join_with slash (y ∷ xs)) (slash ∷ w))
    ∙ split_at_front slash x (join_with slash (y ∷ xs) ++ slash ∷ w) h.0
    ∙ ap (λ l. x ∷ l) (split-front y xs w h.1)

-- The last byte of a name, and of a path of names, is no slash.
abbrev EndsPlain : Bytes → Type 0
EndsPlain s = (init : Bytes) × (b : ℕ) × (s ≡ init ++ b ∷ []) × ((b == slash) ≡ false)

name-EndsPlain : (b : ℕ) (x : Bytes) → NoByte slash (b ∷ x) → EndsPlain (b ∷ x)
name-EndsPlain b [] h = ([], b, refl, h.0)
name-EndsPlain b (c ∷ x) h =
    let (init, z, e, plain) = name-EndsPlain c x h.1 in (b ∷ init, z, ap (λ t. b ∷ t) e, plain)

join-EndsPlain :
    (x : Bytes) (xs : List Bytes) → All IsElement (x ∷ xs) → EndsPlain (join_with slash (x ∷ xs))
unfolding join_with
join-EndsPlain [] [] h = absurd (unfold is_bytes in (false≢true (sym h.0.0.non_empty)))
join-EndsPlain (b ∷ x) [] h = name-EndsPlain b x h.0.1
join-EndsPlain x (y ∷ xs) h =
    let (init, z, e, plain) = join-EndsPlain y xs h.1 in
    (
      x ++ slash ∷ init,
      z,
      ap (λ t. x ++ slash ∷ t) e ∙ sym (append_assoc x (slash ∷ init) (z ∷ [])),
      plain,
    )

no_suffix : (s : Bytes) → EndsPlain s → has_suffix (slash ∷ s) (slash ∷ []) ≡ false
unfolding has_suffix has_prefix
no_suffix s (init, z, e, plain) =
    ap (λ t. has_prefix (reverse (slash ∷ t)) (slash ∷ [])) e
    ∙ ap (λ t. has_prefix t (slash ∷ [])) (reverse-append (slash ∷ init) (z ∷ []))
    ∙ rw plain refl

-- A test as `matchesAny` makes it, on the bytes behind the first slash.
abbrev Covers : Bytes → Bytes → Type 0
Covers u t = ((u == t) || has_prefix t (u ++ slash ∷ [])) ≡ true

nothing_covered : (init : Bytes) (b : ℕ) → Covers (init ++ b ∷ []) [] → ⊥
unfolding is_bytes has_prefix
nothing_covered [] b c = absurd (cc)
nothing_covered (a ∷ init) b c = absurd (cc)

Covers-down :
    (x : Bytes) (xs ys : List Bytes)
    → All IsElement (x ∷ xs)
    → All IsElement ys
    → Covers (join_with slash (x ∷ xs)) (join_with slash ys)
    → (rest : List Bytes) × (ys ≡ (x ∷ xs) ++ rest)
unfolding join_with
Covers-down x xs [] h k c =
    let (init, b, e, plain) = join-EndsPlain x xs h in
    absurd (nothing_covered init b (subst (λ u. Covers u []) e c))
Covers-down x xs (y ∷ ys) h k c =
    let u = join_with slash (x ∷ xs) in
    let t = join_with slash (y ∷ ys) in
    let split_u = split_at-join_with slash x xs (All-NoByte (x ∷ xs) h) in
    let split_t = split_at-join_with slash y ys (All-NoByte (y ∷ ys) k) in
    elim (Bool-cases (u == t)) [
      | inl e ↦
          let same = (bytes_eq.beq_iff u t).0 e in
          ([], sym split_t ∙ ap (split_at slash) (sym same) ∙ split_u ∙ sym (append-nil (x ∷ xs)))
      | inr e ↦
          let longer : has_prefix t (u ++ slash ∷ []) ≡ true = sym (rw e refl) ∙ c in
          let (w, shown) = has_prefix-split t (u ++ slash ∷ []) longer in
          (
            split_at slash w,
            sym split_t
                ∙ ap (split_at slash) (shown ∙ append_assoc u (slash ∷ []) w)
                ∙ split-front x xs w (All-NoByte (x ∷ xs) h),
          )
    ]

either : {a b : Bool} → (a ≡ true) ⊎ (a ≡ false) → b ≡ true → a || b ≡ true
either (inl e) h = rw e refl
either (inr e) h = rw e h

Covers-up :
    (x : Bytes) (xs rest : List Bytes)
    → Covers (join_with slash (x ∷ xs)) (join_with slash ((x ∷ xs) ++ rest))
Covers-up x xs [] =
    let u = join_with slash (x ∷ xs) in
    subst (λ l. Covers u (join_with slash l)) (sym (append-nil (x ∷ xs))) (rw (beq_refl u) refl)
Covers-up x xs (r ∷ rest) =
    let u = join_with slash (x ∷ xs) in
    let t = join_with slash (r ∷ rest) in
    let e : join_with slash ((x ∷ xs) ++ r ∷ rest) ≡ (u ++ slash ∷ []) ++ t =
      join-append x xs r rest ∙ sym (append_assoc u (slash ∷ []) t) in
    let p : has_prefix ((u ++ slash ∷ []) ++ t) (u ++ slash ∷ []) ≡ true =
      has_prefix_front (u ++ slash ∷ []) t in
    subst (Covers u) (sym e) (either (Bool-cases (u == (u ++ slash ∷ []) ++ t)) p)

drop_false : (a b : Bool) → a || false || b ≡ a || b
drop_false true b = refl
drop_false false b = refl

one_true : (a : Bool) → a || true || false ≡ true
one_true true = refl
one_true false = refl

plain_entry :
    (u t : Bytes)
    → has_suffix (slash ∷ u) (slash ∷ []) ≡ false
    → entry_matches (slash ∷ u) (slash ∷ t) ≡ (u == t) || has_prefix t (u ++ slash ∷ [])
unfolding entry_matches has_prefix is_bytes
plain_entry u t h = rw h (drop_false (u == t) (has_prefix t (u ++ slash ∷ [])))

root_matches : (t : Bytes) → entry_matches (slash ∷ []) (slash ∷ t) ≡ true
unfolding entry_matches has_suffix has_prefix is_bytes
root_matches t = one_true ([] == t)

-- The test of one entry, by the elements of the two paths.
entry_elements :
    (xs ys : List Bytes)
    → All IsElement xs
    → All IsElement ys
    → (entry_matches (slash ∷ join_with slash xs) (slash ∷ join_with slash ys) ≡ true)
      ↔ ((rest : List Bytes) × (ys ≡ xs ++ rest))
entry_elements [] ys h k =
    ((λ m. (ys, refl)), (λ m. unfold join_with in root_matches (join_with slash ys)))
entry_elements (x ∷ xs) ys h k =
    let u = join_with slash (x ∷ xs) in
    let plain = plain_entry u (join_with slash ys) (no_suffix u (join-EndsPlain x xs h)) in
    (
      λ m. Covers-down x xs ys h k (sym plain ∙ m),
      λ (rest, e). plain ∙ subst (λ l. Covers u (join_with slash l)) (sym e) (Covers-up x xs rest),
    )

entry_matches_iff :
    (p s : Bytes) → IsEntry p → is_abs s ≡ true → (entry_matches p (clean s) ≡ true) ↔ IsUnder p s
entry_matches_iff p s (abs, same) h =
    let e = entry_elements (cleaned p) (cleaned s) (cleaned-All p abs) (cleaned-All s h) in
    let shown_p = sym same ∙ abs_clean p abs in
    let shown =
      ap (λ t. entry_matches t (clean s)) shown_p
      ∙ ap (entry_matches (slash ∷ join_with slash (cleaned p))) (abs_clean s h) in
    (λ m. e.0 (sym shown ∙ m), λ under. shown ∙ e.1 under)

pub matches_any_iff :
    (list : List Bytes) (s : Bytes)
    → All IsEntry list
    → is_abs s ≡ true
    → (matches_any list (clean s) ≡ true) ↔ AnyAbove list s
unfolding matches_any
matches_any_iff [] s h a = ((λ m. absurd (false≢true m)), (λ m. absurd m))
matches_any_iff (p ∷ list) s h a =
    let this = entry_matches_iff p s h.0 a in
    let rest = matches_any_iff list s h.1 a in
    (
      λ m. elim (Bool-cases (entry_matches p (clean s))) [
        | inl e ↦ inl (this.0 e)
        | inr e ↦ inr (rest.0 (sym (rw e refl) ∙ m))
      ],
      λ m. elim m [
        | inl under ↦ ap (λ b. b || matches_any list (clean s)) (this.1 under)
        | inr above ↦ either (Bool-cases (entry_matches p (clean s))) (rest.1 above)
      ],
    )

abbrev decision : Bool → Bool → Option String
decision denied allowed = if denied then denial else if not allowed then denial else none

decided :
    {A D : Type 0} (denied allowed : Bool)
    → (allowed ≡ true) ↔ A
    → (denied ≡ true) ↔ D
    → (decision denied allowed ≡ none) ↔ (A × ¬ D)
decided true allowed a d = ((λ h. absurd (cc)), (λ (x, n). absurd (n (d.0 refl))))
decided false true a d = ((λ h. (a.0 refl, λ x. absurd (false≢true (d.1 x)))), (λ h. refl))
decided false false a d = ((λ h. absurd (cc)), (λ (x, n). absurd (false≢true (a.1 x))))

-- With lists of cleaned absolute paths, CheckRead lets an absolute path pass exactly if the path that
-- is left when its `.` and `..` are resolved is one on the read list or lies below one, and is none on
-- the deny list and below none. The path is taken as it is written: no symbolic link is followed.
pub check_read_iff :
    (pol : FsPolicy) (s : Bytes)
    → All IsEntry pol.read_allowed
    → All IsEntry pol.denied
    → is_abs s ≡ true
    → (check_read pol s ≡ none) ↔ (AnyAbove pol.read_allowed s × ¬ AnyAbove pol.denied s)
unfolding check_read
check_read_iff pol s h k a =
    let allow = matches_any_iff pol.read_allowed s h a in
    let deny = matches_any_iff pol.denied s k a in
    decided (matches_any pol.denied (clean s)) (matches_any pol.read_allowed (clean s)) allow deny
