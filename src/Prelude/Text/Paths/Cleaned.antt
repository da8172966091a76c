-- ===== src/Prelude/Text/Paths/Cleaned.antt =====
-- A cleaned absolute path goes down only: its elements, and the way to it from another.
use mathlib.Core.List.{reverse, reverse-cons, reverse-reverse, append-nil, append_assoc}
use mathlib.Core.Bool.{false≢true}
use mathlib.Core.Option.{some-injective}
use brain.Prelude.Assoc.{beq_refl}
use brain.Prelude.Text.Paths.{
  to_head, slash, dot_dot, dot, has_prefix, split_at, join_with, is_abs, push_element, clean_from,
  cleaned, clean, up_elements, up, rel_elements, rel,
}
use brain.Prelude.Text.{Bytes, is_bytes, is_bytes_iff, bytes_eq}
use brain.Prelude.{
  ℕ, ◌≡◌, refl, sym, ap, ◌∙◌, inl, inr, Bool, true, false, ◌||◌, none, some, List, [], ◌∷◌, ◌++◌,
  if◌then◌else◌, nat_eq, string_eq, ◌==◌, Bool-cases, All, All-append,
}

-- Neither empty nor `.` nor `..`.
pub record IsName (s : Bytes) : Type 0 where
  pub non_empty : (s == []) ≡ false
  pub no_dot : (s == dot) ≡ false
  pub no_dot_dot : (s == dot_dot) ≡ false

abbrev pub NoByte : ℕ → Bytes → Type 0
NoByte sep [] = Unit
NoByte sep (b ∷ s) = ((b == sep) ≡ false) × NoByte sep s

-- An element that a cleaned absolute path may have.
abbrev pub IsElement : Bytes → Type 0
IsElement s = IsName s × NoByte slash s

to_head-All :
    (sep b : ℕ) (xs : List Bytes)
    → (b == sep) ≡ false
    → All (NoByte sep) xs
    → All (NoByte sep) (to_head b xs)
to_head-All sep b [] h k = ((h, tt), tt)
to_head-All sep b (x ∷ xs) h k = ((h, k.0), k.1)

pub split_at-All : (sep : ℕ) (s : Bytes) → All (NoByte sep) (split_at sep s)
unfolding split_at
split_at-All sep [] = (tt, tt)
split_at-All sep (b ∷ s) = elim (Bool-cases (b == sep)) [
  | inl e ↦ rw e (tt, split_at-All sep s)
  | inr e ↦ rw e (to_head-All sep b (split_at sep s) e (split_at-All sep s))
]

push_element-All :
    (out : List Bytes) (s : Bytes)
    → All IsElement out
    → NoByte slash s
    → All IsElement (push_element true out s)
unfolding push_element
push_element-All out s h k = elim (Bool-cases (s == [])) [
  | inl a ↦ rw a h
  | inr a ↦ elim (Bool-cases (s == dot)) [
    | inl b ↦ rw (a, b) h
    | inr b ↦ elim (Bool-cases (s == dot_dot)) [
      | inr c ↦ rw (a, b, c) ((record { non_empty = a; no_dot = b; no_dot_dot = c }, k), h)
      | inl c ↦ rw (a, b, c) (popped out h)
    ]
  ]
]
  where
    popped :
        (out : List Bytes)
        → All IsElement out
        → All IsElement (elim out as (λ _. List Bytes) [
          | [] ↦ []
          | x ∷ xs ↦ if x == dot_dot then dot_dot ∷ x ∷ xs else xs
        ])
    popped [] h = tt
    popped (x ∷ xs) h = rw h.0.0.no_dot_dot h.1

pub clean_from-All :
    (out ss : List Bytes)
    → All IsElement out
    → All (NoByte slash) ss
    → All IsElement (clean_from true out ss)
unfolding clean_from
clean_from-All out [] h k = h
clean_from-All out (s ∷ ss) h k =
    clean_from-All (push_element true out s) ss (push_element-All out s h k.0) k.1

All-reverse {ℓ κ} : {A : Type ℓ} (P : A → Type κ) (xs : List A) → All P xs → All P (reverse xs)
All-reverse P [] h = tt
All-reverse P (x ∷ xs) h =
    rw (reverse-cons x xs) (All-append P (reverse xs) (x ∷ []) (All-reverse P xs h.1) (h.0, tt))

-- The elements of an absolute path are names.
pub cleaned-All : (s : Bytes) → is_abs s ≡ true → All IsElement (cleaned s)
unfolding cleaned
cleaned-All s h = rw h (
    All-reverse IsElement (clean_from true [] (split_at slash s))
      (clean_from-All [] (split_at slash s) tt (split_at-All slash s)))

push_element_name : (out : List Bytes) (s : Bytes) → IsElement s → push_element true out s ≡ s ∷ out
unfolding push_element
push_element_name out s h = rw (h.0.non_empty, h.0.no_dot, h.0.no_dot_dot) refl

clean_from_names :
    (out ss : List Bytes) → All IsElement ss → clean_from true out ss ≡ reverse ss ++ out
unfolding clean_from
clean_from_names out [] h = refl
clean_from_names out (s ∷ ss) h =
    ap (λ o. clean_from true o ss) (push_element_name out s h.0)
    ∙ clean_from_names (s ∷ out) ss h.1
    ∙ sym (append_assoc (reverse ss) (s ∷ []) out)
    ∙ ap (λ l. l ++ out) (sym (reverse-cons s ss))

split_at_name : (sep : ℕ) (x : Bytes) → NoByte sep x → split_at sep x ≡ x ∷ []
unfolding split_at
split_at_name sep [] h = refl
split_at_name sep (b ∷ x) h = rw (h.0, split_at_name sep x h.1) refl

pub split_at_front :
    (sep : ℕ) (x s : Bytes) → NoByte sep x → split_at sep (x ++ sep ∷ s) ≡ x ∷ split_at sep s
unfolding split_at
split_at_front sep [] s h = rw (beq_refl sep) refl
split_at_front sep (b ∷ x) s h = rw (h.0, split_at_front sep x s h.1) refl

pub split_at-join_with :
    (sep : ℕ) (x : Bytes) (xs : List Bytes)
    → All (NoByte sep) (x ∷ xs)
    → split_at sep (join_with sep (x ∷ xs)) ≡ x ∷ xs
unfolding join_with
split_at-join_with sep x [] h = split_at_name sep x h.0
split_at-join_with sep x (y ∷ xs) h =
    split_at_front sep x (join_with sep (y ∷ xs)) h.0
    ∙ ap (λ l. x ∷ l) (split_at-join_with sep y xs h.1)

pub All-NoByte : (xs : List Bytes) → All IsElement xs → All (NoByte slash) xs
All-NoByte [] h = tt
All-NoByte (x ∷ xs) h = (h.0.1, All-NoByte xs h.1)

-- The elements of the absolute path that has them.
pub cleaned_names : (xs : List Bytes) → All IsElement xs → cleaned (slash ∷ join_with slash xs) ≡ xs
unfolding cleaned clean_from split_at join_with is_abs push_element is_bytes
cleaned_names [] h = refl
cleaned_names (x ∷ xs) h =
    ap (λ l. reverse (clean_from true [] l)) (split_at-join_with slash x xs (All-NoByte (x ∷ xs) h))
    ∙ ap reverse (clean_from_names [] (x ∷ xs) h)
    ∙ ap reverse (append-nil (reverse (x ∷ xs)))
    ∙ reverse-reverse (x ∷ xs)

pub abs_clean : (s : Bytes) → is_abs s ≡ true → clean s ≡ slash ∷ join_with slash (cleaned s)
unfolding clean
abs_clean s h = rw h refl

-- `Clean` changes no elements, so that a second one changes nothing.
pub cleaned-clean : (s : Bytes) → is_abs s ≡ true → cleaned (clean s) ≡ cleaned s
cleaned-clean s h = ap cleaned (abs_clean s h) ∙ cleaned_names (cleaned s) (cleaned-All s h)

pub is_abs-clean : (s : Bytes) → is_abs s ≡ true → is_abs (clean s) ≡ true
unfolding is_abs
is_abs-clean s h = ap is_abs (abs_clean s h)

pub clean_twice : (s : Bytes) → is_abs s ≡ true → clean (clean s) ≡ clean s
clean_twice s h =
    abs_clean (clean s) (is_abs-clean s h)
    ∙ ap (λ l. slash ∷ join_with slash l) (cleaned-clean s h)
    ∙ sym (abs_clean s h)

-- A relative path that begins with `..`.
unfoldable pub is_outside : Bytes → Bool
unfolding has_prefix
is_outside r = has_prefix r (46 ∷ 46 ∷ 47 ∷ []) || r == dot_dot

up_outside : (xs : List Bytes) → is_outside (join_with slash (dot_dot ∷ xs)) ≡ true
unfolding is_outside join_with has_prefix is_bytes
up_outside [] = refl
up_outside (x ∷ xs) = refl

-- Going up from a name leaves the directory.
up_escapes :
    (x : Bytes) (base target : List Bytes) {r : Bytes}
    → (x == dot_dot) ≡ false
    → up (x ∷ base) target ≡ some r
    → is_outside r ≡ true
unfolding up
up_escapes x base target h e =
    let found =
      sym
        (ap (λ b. if b then none else some (join_with slash (dot_dot ∷ up_elements base target))) h)
      ∙ e in
    ap is_outside (sym (some-injective _ _ found)) ∙ up_outside (up_elements base target)

rel_elements_inside :
    (base target : List Bytes) {r : Bytes}
    → All IsElement base
    → rel_elements base target ≡ some r
    → is_outside r ≡ false
    → (rest : List Bytes) × (target ≡ base ++ rest) × (r ≡ join_with slash rest)
unfolding rel_elements
rel_elements_inside [] target h e n = (target, refl, sym (some-injective _ _ e))
rel_elements_inside (x ∷ base) [] h e n =
    absurd (false≢true (sym n ∙ up_escapes x base [] h.0.0.no_dot_dot e))
rel_elements_inside (x ∷ base) (y ∷ target) h e n = elim (Bool-cases (x == y)) [
  | inr d ↦
      let gone =
        sym (ap (λ b. if b then rel_elements base target else up (x ∷ base) (y ∷ target)) d) ∙ e in
      absurd (false≢true (sym n ∙ up_escapes x base (y ∷ target) h.0.0.no_dot_dot gone))
  | inl same ↦
      let found =
        sym (ap (λ b. if b then rel_elements base target else up (x ∷ base) (y ∷ target)) same)
        ∙ e in
      let (rest, split, shown) = rel_elements_inside base target h.1 found n in
      (
        rest,
        ap (λ l. y ∷ l) split ∙ ap (λ z. z ∷ (base ++ rest)) (sym ((is_bytes_iff x y).0 same)),
        shown,
      )
]

-- Where the way from one absolute path to another neither is `.` nor begins with `..`, the second
-- is the first with names below it, which are the elements of the way.
pub rel_inside :
    (base target : Bytes) {r : Bytes}
    → is_abs base ≡ true
    → is_abs target ≡ true
    → rel base target ≡ some r
    → is_outside r ≡ false
    → (r == dot) ≡ false
    → (x : Bytes) × (xs : List Bytes) × (cleaned target ≡ cleaned base ++ x ∷ xs)
      × (r ≡ join_with slash (x ∷ xs))
unfolding rel
rel_inside base target {r} hb ht e n d = elim (Bool-cases (clean base == clean target)) [
  | inl same ↦
      let here : some dot ≡ some r = sym (rw same refl) ∙ e in
      absurd
        (false≢true (sym d ∙ ap (λ p. p == dot) (sym (some-injective _ _ here)) ∙ beq_refl dot))
  | inr other ↦
      let found : rel_elements (cleaned base) (cleaned target) ≡ some r =
        sym (rw (other, hb, ht) refl) ∙ e in
      below other
        (rel_elements_inside (cleaned base) (cleaned target) (cleaned-All base hb) found n)
]
  where
    below :
        (clean base == clean target) ≡ false
        → (rest : List Bytes) × (cleaned target ≡ cleaned base ++ rest) × (r ≡ join_with slash rest)
        → (x : Bytes) × (xs : List Bytes) × (cleaned target ≡ cleaned base ++ x ∷ xs)
          × (r ≡ join_with slash (x ∷ xs))
    below other ([], split, shown) =
        let same =
          abs_clean target ht
          ∙ ap (λ l. slash ∷ join_with slash l) (split ∙ append-nil (cleaned base))
          ∙ sym (abs_clean base hb) in
        absurd (false≢true (sym other ∙ (is_bytes_iff (clean base) (clean target)).1 (sym same)))
    below other (x ∷ xs, split, shown) = (x, xs, split, shown)
