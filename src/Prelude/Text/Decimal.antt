-- ===== src/Prelude/Text/Decimal.antt =====
-- Printing and reading a number in base 10, and texts that `trim_space` leaves alone.
use brain.Prelude.Text.{
  Bytes, drop, trim_front, trim_space, format_digits, format_int, parse_digits, atoi, blank_width,
}
use brain.Prelude.Int.{pos, int_eq}
use brain.Prelude.{
  ℕ, zero, suc, ◌+◌, ◌*◌, ◌/◌, ◌%◌, ◌^◌, ◌≤◌, ◌<◌, ◌≡◌, refl, sym, ap, ◌∙◌, inl, inr, Bool, true,
  false, some, [], ◌∷◌, ◌++◌, arith, ltb, leb, nat_eq, string_eq, ◌==◌, Bool-cases, length,
  length-append, All, All-append,
}
use mathlib.Core.Option.{bind}
use mathlib.Core.List.{append-nil, append_assoc, reverse, reverse-cons, reverse-reverse}

abbrev pub IsDigit : ℕ → Type 0
IsDigit b = (48 ≤ b) × (b ≤ 57)

format_digits-IsDigit : (fuel n : ℕ) → All IsDigit (format_digits fuel n)
unfolding format_digits
format_digits-IsDigit zero n = tt
format_digits-IsDigit (suc fuel) n = elim (Bool-cases (ltb n 10)) [
  | inl e ↦ rw e ((omega arith, ground (arith, e)), tt)
  | inr e ↦ rw e (
      All-append IsDigit (format_digits fuel (n / 10)) ((48 + n % 10) ∷ [])
        (format_digits-IsDigit fuel (n / 10)) ((omega arith, omega arith), tt))
]

length-format_digits : (fuel n : ℕ) → length (format_digits fuel n) ≤ fuel
unfolding format_digits
length-format_digits zero n = omega arith
length-format_digits (suc fuel) n = elim (Bool-cases (ltb n 10)) [
  | inl e ↦ rw e (omega arith)
  | inr e ↦ rw e (
      omega (
        arith,
        length-append (format_digits fuel (n / 10)) ((48 + n % 10) ∷ []),
        length-format_digits fuel (n / 10),
      ))
]

parse-digit :
    (acc d : ℕ) (s : Bytes)
    → d < 10
    → parse_digits acc ((48 + d) ∷ s) ≡ parse_digits (acc * 10 + d) s
unfolding parse_digits
parse-digit acc d s h =
    let low : leb 48 (48 + d) ≡ true = ground arith in
    let high : leb (48 + d) 57 ≡ true = ground (arith, h) in
    rw (low, high) (ap (λ m. parse_digits m s) (omega arith))

-- Reading what was printed gives the number.
parse-format_digits :
    (fuel n : ℕ) (s : Bytes)
    → n < 10 ^ fuel
    → parse_digits 0 (format_digits fuel n ++ s) ≡ parse_digits n s
unfolding format_digits
parse-format_digits zero n s h = ap (λ m. parse_digits m s) (omega arith)
parse-format_digits (suc fuel) n s h = elim (Bool-cases (ltb n 10)) [
  | inl e ↦ rw e (parse-digit 0 n s (ground (arith, e)) ∙ ap (λ m. parse_digits m s) (omega arith))
  | inr e ↦
      rw (e, append_assoc (format_digits fuel (n / 10)) ((48 + n % 10) ∷ []) s)
        (parse-format_digits fuel (n / 10) ((48 + n % 10) ∷ s) (omega (arith, h))
          ∙ parse-digit (n / 10) (n % 10) s (omega arith)
          ∙ ap (λ m. parse_digits m s) (omega arith))
]

digits_nonempty : (fuel n : ℕ) → 0 < length (format_digits (suc fuel) n)
unfolding format_digits
digits_nonempty fuel n = elim (Bool-cases (ltb n 10)) [
  | inl e ↦ rw e (omega arith)
  | inr e ↦ rw e (omega (arith, length-append (format_digits fuel (n / 10)) ((48 + n % 10) ∷ [])))
]

atoi-digits :
    (l : Bytes) (n : ℕ)
    → 0 < length l
    → All IsDigit l
    → parse_digits 0 l ≡ some n
    → n < 2 ^ 63
    → atoi l ≡ some (pos n)
unfolding atoi bind
atoi-digits [] n p h e k = absurd (omega arith)
atoi-digits (b ∷ s) n p h e k =
    let plus : (b == 43) ≡ false = ground (arith, h.0) in
    let minus : (b == 45) ≡ false = ground (arith, h.0) in
    let small : ltb n (2 ^ 63) ≡ true = ground (arith, k) in rw (plus, minus, e, small) refl

atoi-format_digits :
    (fuel n : ℕ) → n < 10 ^ suc fuel → n < 2 ^ 63 → atoi (format_digits (suc fuel) n) ≡ some (pos n)
atoi-format_digits fuel n h k =
    atoi-digits (format_digits (suc fuel) n) n (digits_nonempty fuel n)
      (format_digits-IsDigit (suc fuel) n)
      (ap (parse_digits 0) (sym (append-nil (format_digits (suc fuel) n)))
        ∙ parse-format_digits (suc fuel) n [] h
        ∙ (unfold parse_digits in refl))
      k

-- `strconv.Atoi` reads what `%d` prints.
pub atoi-format_int : (n : ℕ) → n < 2 ^ 63 → atoi (format_int n) ≡ some (pos n)
unfolding format_int
atoi-format_int n h = atoi-format_digits 18 n (omega (arith, h)) h

-- What starts with a byte of visible ASCII starts with no white space, from either end.
visible_width :
    (forward : Bool) (b : ℕ) (s : Bytes) → 32 < b → b < 128 → blank_width forward (b ∷ s) ≡ 0
visible_width true b [] p q = ground (arith, p, q)
visible_width true b (c ∷ []) p q = ground (arith, p, q)
visible_width true b (c ∷ d ∷ s) p q = ground (arith, p, q)
visible_width false b [] p q = ground (arith, p, q)
visible_width false b (c ∷ []) p q = ground (arith, p, q)
visible_width false b (c ∷ d ∷ s) p q = ground (arith, p, q)

trim_front-digits :
    (fuel : ℕ) (forward : Bool) (l : Bytes) → All IsDigit l → trim_front fuel forward l ≡ l
unfolding trim_front
trim_front-digits zero forward l h = refl
trim_front-digits (suc fuel) forward [] h = refl
trim_front-digits (suc fuel) forward (b ∷ s) h =
    rw (visible_width forward b s (omega arith) (omega arith), trim_front) refl

reverse-All : (P : ℕ → Type 0) (l : Bytes) → All P l → All P (reverse l)
reverse-All P [] h = tt
reverse-All P (b ∷ s) h =
    rw reverse-cons (All-append P (reverse s) (b ∷ []) (reverse-All P s h.1) (h.0, tt))

pub trim_space-digits : (l : Bytes) → All IsDigit l → trim_space l ≡ l
unfolding trim_space
trim_space-digits l h =
    rw
      (
        trim_front-digits (length l) true l h,
        trim_front-digits (length l) false (reverse l) (reverse-All IsDigit l h),
      )
      (reverse-reverse l)

-- A blank in front of a text is trimmed.
pub trim_space-blank : (l : Bytes) → trim_space (32 ∷ l) ≡ trim_space l
unfolding trim_space trim_front drop
trim_space-blank l = refl

pub format_int-IsDigit : (n : ℕ) → All IsDigit (format_int n)
unfolding format_int
format_int-IsDigit n = format_digits-IsDigit 19 n

pub length-format_int : (n : ℕ) → length (format_int n) ≤ 19
unfolding format_int
length-format_int n = length-format_digits 19 n
