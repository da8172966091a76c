-- ===== src/Security/AuditChain/Separators.antt =====
-- Texts joined by the separator that the hash of an event puts between its fields.
use brain.Prelude.{string_eq, refl, ap, sym, ◌∙◌, String, ◌≡◌, ◌≢◌, concat}
use text.Mathlib.TextLemmas.{append_assoc as text_assoc, cons-append, nil-append}
use Prim.Native.Char.{Char, code}
use mathlib.Core.Path.{ap₂}

-- The separator does not stand in a text.
abbrev pub NoSeparator : String → Type 0
NoSeparator String.[] = Unit
NoSeparator (String.◌∷◌ x s) = (code x ≢ 31) × NoSeparator s

abbrev pub separated : String → String → String
separated s rest = concat s (concat "\u{1f}" rest)

-- The separator as a character.
abbrev unit_separator : Char
unit_separator = "\u{1f}"

separator_cons : (a : String) → concat "\u{1f}" a ≡ String.◌∷◌ unit_separator a
separator_cons a = cons-append unit_separator "" a ∙ rw (nil-append a)

separated_nil : (a : String) → separated "" a ≡ String.◌∷◌ unit_separator a
separated_nil a = nil-append _ ∙ separator_cons a

separated_cons :
    (x : Char) (s a : String) → separated (String.◌∷◌ x s) a ≡ String.◌∷◌ x (separated s a)
separated_cons x s a = cons-append x s _

cons-injective : (x y : Char) (s t : String) → String.◌∷◌ x s ≡ String.◌∷◌ y t → (x ≡ y) × (s ≡ t)
cons-injective x y s t e = (cc, cc)

pub separated-injective :
    (s t a b : String)
    → NoSeparator s
    → NoSeparator t
    → separated s a ≡ separated t b
    → (s ≡ t) × (a ≡ b)
separated-injective String.[] String.[] a b p q e =
    (refl, (cons-injective _ _ a b (sym (separated_nil a) ∙ e ∙ separated_nil b)).1)
separated-injective String.[] (String.◌∷◌ y t) a b p q e =
    let heads = cons-injective _ _ _ _ (sym (separated_nil a) ∙ e ∙ separated_cons y t b) in
    absurd (q.0 (sym (ap code heads.0)))
separated-injective (String.◌∷◌ x s) String.[] a b p q e =
    let heads = cons-injective _ _ _ _ (sym (separated_cons x s a) ∙ e ∙ separated_nil b) in
    absurd (p.0 (ap code heads.0))
separated-injective (String.◌∷◌ x s) (String.◌∷◌ y t) a b p q e =
    let heads = cons-injective _ _ _ _ (sym (separated_cons x s a) ∙ e ∙ separated_cons y t b) in
    let tails = separated-injective s t a b p.1 q.1 heads.1 in
    (ap₂ String.◌∷◌ heads.0 tails.0, tails.1)

pub shift :
    (x y z r : String)
    → separated x (separated (separated y z) r) ≡ separated (separated x y) (separated z r)
shift x y z r = simp text_assoc
