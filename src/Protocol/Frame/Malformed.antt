-- ===== src/Protocol/Frame/Malformed.antt =====
-- A header line that does not end: the cap on its length, and the end of the stream.
use brain.Prelude.{
  leb, ℕ, ◌-◌, ◌≤◌, ◌<◌, ◌≡◌, refl, ◌⊎◌, inl, inr, false, [], ◌∷◌, ◌++◌, arith, nat_eq, string_eq,
  ◌==◌, Bool-cases, length,
}
use brain.Prelude.Text.{Bytes}
use brain.Protocol.Frame.{
  after_line, max_header_line_size, at_eof, malformed, read_line, read_header_line, read_error,
  read_headers, read_frame,
}
use brain.Protocol.Frame.Lines.{has_cr}
use brain.Errors.Codes

too_long :
    (room : ℕ) (line rest : Bytes)
    → has_cr line ≡ false
    → room < length line
    → read_line room (line ++ rest) ≡ malformed
unfolding read_line
too_long room [] rest clean long = absurd (omega arith)
too_long room (b ∷ line) rest clean long =
    let not_cr : (b == 13) ≡ false = ground (arith, clean) in
    let later : has_cr line ≡ false = ground (arith, clean) in
    elim (Bool-cases (room == 0)) [
      | inl e ↦ rw (not_cr, e) refl
      | inr e ↦ rw (not_cr, e, too_long (room - 1) line rest later (ground (arith, e, long))) refl
    ]

cut_off :
    (room : ℕ) (line : Bytes)
    → has_cr line ≡ false
    → length line ≤ room
    → read_line room line ≡ at_eof
unfolding read_line
cut_off room [] clean short = refl
cut_off room (b ∷ line) clean short =
    let not_cr : (b == 13) ≡ false = ground (arith, clean) in
    let some_room : (room == 0) ≡ false = ground (arith, short) in
    let later : has_cr line ≡ false = ground (arith, clean) in
    rw (not_cr, some_room, cut_off (room - 1) line later (omega (arith, short))) refl

-- A stream that begins with more than 8192 bytes without a CR is refused with a parse error, whatever
-- follows, and a stream that is shorter and ends before any CR with the end of standard output,
-- whether or not a part of a header line has been read.
pub unfinished_line :
    (line rest : Bytes)
    → has_cr line ≡ false
    → ((max_header_line_size < length line)
        × (read_frame false (line ++ rest) ≡ read_error Codes.frame_parse_error))
      ⊎ ((length line ≤ max_header_line_size)
          × (read_frame false line ≡ read_error Codes.sidecar_stdout_eof))
unfolding read_frame read_headers read_header_line after_line
unfinished_line line rest clean = elim (Bool-cases (leb (length line) max_header_line_size)) [
  | inl e ↦
      let short : length line ≤ max_header_line_size = ground (arith, e) in
      inr (short, rw (cut_off max_header_line_size line clean short) refl)
  | inr e ↦
      let long : max_header_line_size < length line = ground (arith, e) in
      inl (long, rw (too_long max_header_line_size line rest clean long) refl)
]
