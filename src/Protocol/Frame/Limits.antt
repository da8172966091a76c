-- ===== src/Protocol/Frame/Limits.antt =====
-- What the reader lets through, and that it always comes to a result.
use brain.Prelude.Text.{Bytes, is_bytes, bytes, trim_space, to_lower, atoi}
use brain.Protocol.Frame.{
  body_at, after_header, Frame, max_body_size, max_header_line_size, LineResult, got_line, at_eof,
  malformed, push, read_line, read_header_line, split_header, Headers, no_headers, ReadResult,
  got_frame, read_error, out_of_fuel, split_body, read_headers, read_frame, check_frame, set_header,
  read_body, after_line, after_cr, checked_body, checked_length, has_bom,
}
use brain.Prelude.Result.{Result, ok, err}
use brain.Prelude.Int.{ℤ, pos, negsuc, ltb_ℤ, int_eq}
use brain.Prelude.{
  ℕ, zero, suc, ◌-◌, ◌≤◌, ◌<◌, ◌≡◌, refl, sym, ap, ◌∙◌, inl, inr, Bool, true, false, Option, none,
  some, [], ◌∷◌, arith, ltb, nat_eq, string_eq, ◌==◌, Bool-cases, length,
}

-- Invariant of the headers: a length that is set is within the limit.
abbrev IsWithin : ℤ → Type 0
IsWithin (pos n) = n ≤ max_body_size
IsWithin (negsuc n) = Unit

abbrev IsBounded : Headers → Type 0
IsBounded h = IsWithin h.content_length

abbrev Bounded : Result Headers → Type 0
Bounded (ok h) = IsBounded h
Bounded (err code) = Unit

abbrev HasLength : ℕ → Option (Bytes × Bytes) → Type 0
HasLength n none = Unit
HasLength n (some (body, rest)) = length body ≡ n

abbrev IsShorter : ℕ → LineResult → Type 0
IsShorter n (got_line line rest) = length rest < n
IsShorter n _ = Unit

split_body-HasLength : (n : ℕ) (s : Bytes) → HasLength n (split_body n s)
unfolding split_body
split_body-HasLength zero s = refl
split_body-HasLength (suc n) [] = tt
split_body-HasLength (suc n) (b ∷ s) =
    elim (split_body n s)
        as (λ o.
          HasLength n o
          → HasLength (suc n)
              (elim o [ none ↦ none | some (body, rest) ↦ some (b ∷ body, rest) ])) [
                | none ↦ λ h. tt
                | some (body, rest) ↦ λ h. ap suc h
              ]
      (split_body-HasLength n s)

push-IsShorter : (n b : ℕ) (r : LineResult) → IsShorter n r → IsShorter (suc n) (push b r)
push-IsShorter n b (got_line line rest) h = omega (arith, h)
push-IsShorter n b at_eof h = tt
push-IsShorter n b malformed h = tt

after_cr-IsShorter : (s : Bytes) → IsShorter (suc (length s)) (after_cr s)
after_cr-IsShorter [] = tt
after_cr-IsShorter (b ∷ s) = elim (Bool-cases (b == 10)) [
  | inl e ↦ rw e (omega arith)
  | inr e ↦ rw e tt
]

-- A line takes up bytes.
read_line-IsShorter : (room : ℕ) (s : Bytes) → IsShorter (length s) (read_line room s)
unfolding read_line
read_line-IsShorter room [] = tt
read_line-IsShorter room (b ∷ s) = elim (Bool-cases (b == 13)) [
  | inl e ↦ rw e (after_cr-IsShorter s)
  | inr e ↦ elim (Bool-cases (room == 0)) [
    | inl z ↦ rw (e, z) tt
    | inr z ↦
        rw (e, z)
          (push-IsShorter (length s) b (read_line (room - 1) s) (read_line-IsShorter (room - 1) s))
  ]
]

checked_length-Bounded : (h : Headers) (z : Option ℤ) → Bounded (checked_length h z)
checked_length-Bounded h none = tt
checked_length-Bounded h (some (negsuc n)) = tt
checked_length-Bounded h (some (pos n)) = elim (Bool-cases (ltb max_body_size n)) [
  | inl e ↦ rw e tt
  | inr e ↦ rw e (ground (arith, e))
]

set_header-Bounded :
    (h : Headers) (kv : Option (Bytes × Bytes)) → IsBounded h → Bounded (set_header h kv)
set_header-Bounded h none b = tt
set_header-Bounded h (some (key, value)) b =
    elim (Bool-cases (is_bytes (to_lower key) (bytes "content-length"))) [
      | inl e ↦ rw e (checked_length-Bounded h (atoi (trim_space value)))
      | inr e ↦ elim (Bool-cases (is_bytes (to_lower key) (bytes "content-type"))) [
        | inl q ↦ rw (e, q) b
        | inr q ↦ rw (e, q) b
      ]
    ]

-- A frame that the writer would take, with the bytes of its body at hand.
abbrev pub IsSendable : Frame → Type 0
IsSendable f = (check_frame (some f) ≡ none) × (has_bom f.body ≡ false)

-- A result: a frame that could be sent, or an error.
pub IsSound : ReadResult → Type 0
IsSound (got_frame f rest) = IsSendable f
IsSound (read_error code) = Unit
IsSound out_of_fuel = ⊥

check_frame_lem :
    (f : Frame) (n : ℕ)
    → f.content_length ≡ pos n
    → length f.body ≡ n
    → n ≤ max_body_size
    → check_frame (some f) ≡ none
unfolding check_frame
check_frame_lem f n e l b =
    let same : (f.content_length == pos (length f.body)) ≡ true =
      (int_eq.beq_iff f.content_length (pos (length f.body))).1 (e ∙ ap pos (sym l)) in
    let small : ltb_ℤ (pos max_body_size) f.content_length ≡ false =
      ap (ltb_ℤ (pos max_body_size)) e ∙ ground (arith, b) in
    rw (same, small) refl

checked_body-IsSound :
    (h : Headers) (n : ℕ) (o : Option (Bytes × Bytes))
    → h.content_length ≡ pos n
    → n ≤ max_body_size
    → HasLength n o
    → IsSound (checked_body h o)
unfolding IsSound
checked_body-IsSound h n none e b l = tt
checked_body-IsSound h n (some (body, rest)) e b l = elim (Bool-cases (has_bom body)) [
  | inl q ↦ rw q tt
  | inr q ↦ rw q (check_frame_lem _ n e l b, q)
]

body_at-IsSound :
    (h : Headers) (s : Bytes) (z : ℤ) → h.content_length ≡ z → IsWithin z → IsSound (body_at h s z)
unfolding IsSound body_at
body_at-IsSound h s (negsuc n) e b = tt
body_at-IsSound h s (pos n) e b =
    checked_body-IsSound h n (split_body n s) e b (split_body-HasLength n s)

after_header-IsSound :
    (later : Headers → Bytes → ReadResult) (n : ℕ) (rest : Bytes) (r : Result Headers)
    → ((h : Headers) (s : Bytes) → length s < n → IsBounded h → IsSound (later h s))
    → length rest < n
    → Bounded r
    → IsSound (after_header later rest r)
unfolding IsSound
after_header-IsSound later n rest (err code) sound l b = tt
after_header-IsSound later n rest (ok h) sound l b = sound h rest l b

after_line-IsSound :
    (later : Headers → Bytes → ReadResult) (saw : Bool) (h : Headers) (n : ℕ) (r : LineResult)
    → ((h' : Headers) (s : Bytes) → length s < n → IsBounded h' → IsSound (later h' s))
    → IsBounded h
    → IsShorter n r
    → IsSound (after_line later saw h r)
unfolding after_line
after_line-IsSound later saw h n at_eof sound b l = unfold IsSound in tt
after_line-IsSound later saw h n malformed sound b l = unfold IsSound in tt
after_line-IsSound later saw h n (got_line [] rest) sound b l =
    unfold read_body in (body_at-IsSound h rest h.content_length refl b)
after_line-IsSound later saw h n (got_line (c ∷ line) rest) sound b l =
    after_header-IsSound later n rest (set_header h (split_header (c ∷ line))) sound l
      (set_header-Bounded h (split_header (c ∷ line)) b)

read_headers-IsSound :
    (fuel : ℕ) (saw : Bool) (h : Headers) (s : Bytes)
    → length s < fuel
    → IsBounded h
    → IsSound (read_headers fuel saw h s)
unfolding read_headers read_header_line
read_headers-IsSound zero saw h s l b = absurd (omega arith)
read_headers-IsSound (suc fuel) saw h s l b =
    after_line-IsSound (read_headers fuel true) saw h (length s) (read_header_line s)
      (λ h' s' l' b'. read_headers-IsSound fuel true h' s' (omega (arith, l, l')) b') b
      (read_line-IsShorter max_header_line_size s)

-- On any stream, `ReadFrame` comes to a result before its fuel, one round for each byte and one more,
-- runs out. If this is a frame, its length is that of its body and within 16 MiB, so that the writer
-- would take it, and the body does not begin with a byte order mark.
pub read_frame-IsSound : (is_done : Bool) (s : Bytes) → IsSound (read_frame is_done s)
unfolding read_frame
read_frame-IsSound true s = unfold IsSound in tt
read_frame-IsSound false s =
    read_headers-IsSound (suc (length s)) false no_headers s (omega arith) tt
