-- ===== src/Prelude/Text.antt =====
-- What the sources use of Go's `strings`, `strconv` and `fmt`, on the bytes of a text: a list of
-- numbers below 256.
use brain.Prelude.{
  ℕ, zero, suc, ◌+◌, ◌-◌, ◌*◌, ◌/◌, ◌%◌, ◌^◌, String, ◌≡◌, refl, ◌↔◌, Bool, true, false, ◌&&◌, ◌||◌,
  Option, none, some, List, [], ◌∷◌, ◌++◌, arith, ltb, leb, if◌then◌else◌, Eq, nat_eq, string_eq,
  ◌==◌, length,
}
pub mod Decimal
pub mod Paths
use mathlib.Core.List.{reverse}
use mathlib.Core.Option.{bind}
use Prim.Native.Char.{code}
use Prim.Native.String.{◌∷◌ as ◌∷ₛ◌, [] as []ₛ}
use brain.Prelude.Int.{ℤ, pos, ◌-ℤ◌, int_eq}

abbrev pub Bytes : Type 0
Bytes = List ℕ

-- Go's `==` on texts.
unfoldable pub is_bytes : Bytes → Bytes → Bool
is_bytes [] [] = true
is_bytes (a ∷ s) (b ∷ t) = a == b && is_bytes s t
is_bytes [] (b ∷ t) = false
is_bytes (a ∷ s) [] = false

pub is_bytes_iff : (s t : Bytes) → (is_bytes s t ≡ true) ↔ (s ≡ t)
unfolding is_bytes
is_bytes_iff [] [] = ((λ h. refl), (λ h. refl))
is_bytes_iff (a ∷ s) (b ∷ t) = ground (arith, nat_eq.beq_iff a b, is_bytes_iff s t)
is_bytes_iff [] (b ∷ t) = ((λ h. absurd (cc)), (λ h. absurd (cc)))
is_bytes_iff (a ∷ s) [] = ((λ h. absurd (cc)), (λ h. absurd (cc)))

instance abbrev pub bytes_eq : Eq Bytes
bytes_eq = record { beq = is_bytes; beq_iff = is_bytes_iff }

-- The bytes of an ASCII text.
unfoldable pub bytes : String → Bytes
bytes []ₛ = []
bytes (c ∷ₛ s) = code c ∷ bytes s

-- A byte of ASCII white space.
abbrev is_blank : ℕ → Bool
is_blank b = b == 32 || (leb 9 b && leb b 13)

-- The second and third byte of a three-byte code point of white space, after the first: U+1680,
-- U+2000 to U+200A, U+2028, U+2029, U+202F, U+205F and U+3000.
abbrev is_wide_blank : ℕ → ℕ → ℕ → Bool
is_wide_blank a b c =
    (a == 225 && b == 154 && c == 128)
    || (a == 226 && b == 128 && ((leb 128 c && leb c 138) || c == 168 || c == 169 || c == 175))
    || (a == 226 && b == 129 && c == 159)
    || (a == 227 && b == 128 && c == 128)

-- U+0085 and U+00A0.
abbrev is_narrow_blank : ℕ → ℕ → Bool
is_narrow_blank a b = a == 194 && (b == 133 || b == 160)

-- The length of the white space that a text begins with: `false` for a text from its end.
abbrev blank_width : Bool → Bytes → ℕ
blank_width forward [] = 0
blank_width forward (a ∷ s) = if is_blank a then 1 else elim s [
  | [] ↦ 0
  | b ∷ s' ↦ if (if forward then is_narrow_blank a b else is_narrow_blank b a) then 2 else elim s' [
    | [] ↦ 0
    | c ∷ s'' ↦ if (if forward then is_wide_blank a b c else is_wide_blank c b a) then 3 else 0
  ]
]

unfoldable pub drop : ℕ → Bytes → Bytes
drop zero s = s
drop (suc n) [] = []
drop (suc n) (b ∷ s) = drop n s

-- Drops white space at the front, for as many code points as the fuel says.
unfoldable pub trim_front : ℕ → Bool → Bytes → Bytes
unfolding drop
trim_front zero forward s = s
trim_front (suc n) forward s = elim (blank_width forward s) [
  | zero ↦ s
  | suc k ↦ trim_front n forward (drop (suc k) s)
]

-- `strings.TrimSpace`: from the front, then from the back.
unfoldable pub trim_space : Bytes → Bytes
unfolding trim_front
trim_space s =
    let t = trim_front (length s) true s in reverse (trim_front (length t) false (reverse t))

-- `strings.ToLower`, on ASCII letters; a text with any other letter that it changes is none of the
-- two that it is compared with.
unfoldable pub to_lower : Bytes → Bytes
to_lower [] = []
to_lower (b ∷ s) = (if leb 65 b && leb b 90 then b + 32 else b) ∷ to_lower s

-- The digits of a number, in base 10: `fmt`'s `%d`.
unfoldable pub format_digits : ℕ → ℕ → Bytes
format_digits zero n = []
format_digits (suc fuel) n =
    let rest = format_digits fuel (n / 10) in
    if ltb n 10 then (48 + n) ∷ [] else rest ++ (48 + n % 10) ∷ []

-- An int has at most 19 digits.
unfoldable pub format_int : ℕ → Bytes
unfolding format_digits
format_int n = format_digits 19 n

-- The number that digits stand for, after some; `none` if one of them is none.
unfoldable pub parse_digits : ℕ → Bytes → Option ℕ
parse_digits acc [] = some acc
parse_digits acc (b ∷ s) =
    let rest = parse_digits (acc * 10 + (b - 48)) s in if leb 48 b && leb b 57 then rest else none

abbrev non_empty_digits : Bytes → Option ℕ
unfolding parse_digits
non_empty_digits [] = none
non_empty_digits (b ∷ s) = parse_digits 0 (b ∷ s)

abbrev in_range : Bool → ℕ → Option ℤ
in_range negative n =
    if negative
    then (if leb n (2 ^ 63) then some (pos 0 -ℤ pos n) else none)
    else (if ltb n (2 ^ 63) then some (pos n) else none)

-- `strconv.Atoi`: a sign or none, then digits, and the value is an int.
unfoldable pub atoi : Bytes → Option ℤ
unfolding non_empty_digits
atoi [] = none
atoi (b ∷ s) =
    if b == 43
    then bind (non_empty_digits s) (in_range false)
    else if b == 45
    then bind (non_empty_digits s) (in_range true)
    else bind (non_empty_digits (b ∷ s)) (in_range false)
