-- ===== src/Protocol/Frame/RoundTrip.antt =====
-- Reading back what the writer writes.
use brain.Prelude.Text.{Bytes, bytes, trim_space, format_int}
use mathlib.Core.List.{append_assoc}
use brain.Prelude.{
  ℕ, zero, suc, ◌+◌, ◌≤◌, ◌≡◌, refl, sym, ap, ◌∙◌, Bool, true, false, none, some, [], ◌∷◌, ◌++◌,
  arith, nat_eq, string_eq, length,
}
use brain.Prelude.Int.{pos, pos_part, ltb_ℤ, int_eq}
use brain.Prelude.Result.{ok}
use brain.Prelude.Text.Decimal.{format_int-IsDigit, length-format_int}
use brain.Protocol.Frame.{
  after_header, set_header, has_bom, after_line, Frame, max_body_size, max_header_line_size,
  read_line, read_header_line, split_header, Headers, no_headers, got_frame, read_headers,
  read_frame, write_one, check_frame,
}
use brain.Protocol.Frame.Lines.{
  read_line_lem, sent_type, has_cr, has_cr-digits, split_body_lem, set-content_length,
  set-content_type,
}

-- The bytes of a frame, line by line.
wire_lem :
    (f : Frame) (rest : Bytes)
    → write_one f ++ rest
      ≡ (bytes "Content-Length: " ++ format_int (pos_part f.content_length))
        ++ 13
          ∷ 10
          ∷ ((bytes "Content-Type: " ++ sent_type f) ++ 13 ∷ 10 ∷ 13 ∷ 10 ∷ (f.body ++ rest))
unfolding write_one bytes
wire_lem f rest = simp append_assoc refl

read_header_lem :
    (fuel : ℕ) (saw : Bool) (h h' : Headers) (b : ℕ) (line rest : Bytes)
    → has_cr (b ∷ line) ≡ false
    → length (b ∷ line) ≤ max_header_line_size
    → set_header h (split_header (b ∷ line)) ≡ ok h'
    → read_headers (suc fuel) saw h ((b ∷ line) ++ 13 ∷ 10 ∷ rest) ≡ read_headers fuel true h' rest
unfolding read_headers read_header_line after_line
read_header_lem fuel saw h h' b line rest clean short e =
    ap (after_line (read_headers fuel true) saw h)
      (read_line_lem max_header_line_size (b ∷ line) rest clean short)
    ∙ ap (after_header (read_headers fuel true) rest) e

read_last_lem :
    (fuel : ℕ) (f : Frame) (ct rest : Bytes)
    → has_bom f.body ≡ false
    → read_headers
        (suc fuel)
        true
        (record { content_length = pos (length f.body); content_type = ct })
        (13 ∷ 10 ∷ (f.body ++ rest))
      ≡ got_frame
          (record { content_length = pos (length f.body); content_type = ct; body = f.body })
          rest
unfolding read_headers read_header_line read_line after_line
read_last_lem fuel f ct rest no_bom = rw (split_body_lem f.body rest, no_bom) refl

-- What `check_frame` passes.
passed :
    (f : Frame)
    → check_frame (some f) ≡ none
    → (f.content_length ≡ pos (length f.body)) × (length f.body ≤ max_body_size)
unfolding check_frame
passed f h =
    let e : f.content_length ≡ pos (length f.body) =
      (int_eq.beq_iff f.content_length (pos (length f.body))).0 (ground (arith, h)) in
    let u : ltb_ℤ (pos max_body_size) f.content_length ≡ false = ground (arith, h) in
    let v : ltb_ℤ (pos max_body_size) (pos (length f.body)) ≡ false =
      ap (ltb_ℤ (pos max_body_size)) (sym e) ∙ u in
    (e, ground (arith, v))

read_wire :
    (fuel : ℕ) (f : Frame) (rest : Bytes)
    → 2 ≤ fuel
    → check_frame (some f) ≡ none
    → has_bom f.body ≡ false
    → has_cr (sent_type f) ≡ false
    → trim_space (sent_type f) ≡ sent_type f
    → length (sent_type f) + 14 ≤ max_header_line_size
    → read_headers (suc fuel) false no_headers (write_one f ++ rest)
      ≡ got_frame (record f { content_type = sent_type f }) rest
read_wire zero f rest enough passes no_bom clean trimmed short = absurd (omega arith)
read_wire (suc zero) f rest enough passes no_bom clean trimmed short = absurd (omega arith)
read_wire (suc (suc k)) f rest enough passes no_bom clean trimmed short =
    let (e, small) = passed f passes in
    let n = length f.body in
    let first : Headers = record { content_length = pos n; content_type = [] } in
    let both : Headers = record { content_length = pos n; content_type = sent_type f } in
    let digits = format_int n in
    let wire = 13 ∷ 10 ∷ (f.body ++ rest) in
    rw (wire_lem f rest, e)
      (unfold bytes in
        (read_header_lem (suc (suc k)) false no_headers first 67 (bytes "ontent-Length: " ++ digits)
            ((bytes "Content-Type: " ++ sent_type f) ++ 13 ∷ 10 ∷ wire)
            (has_cr-digits digits (format_int-IsDigit n)) (omega (arith, length-format_int n))
            (set-content_length no_headers n small)
          ∙ (read_header_lem (suc k) true first both 67 (bytes "ontent-Type: " ++ sent_type f) wire
                clean (omega (arith, short)) (set-content_type first (sent_type f) trimmed)
              ∙ read_last_lem k f (sent_type f) rest no_bom)))

-- A frame that the writer takes, with a body that does not begin with a byte order mark and a content
-- type that has no CR, no white space at its ends and fits into a header line, is read back from the
-- bytes that are written for it: with its length and its body, with the content type or, if it has
-- none, the canonical one, and with the stream at the byte behind it.
pub read_frame-write_one :
    (f : Frame) (rest : Bytes)
    → check_frame (some f) ≡ none
    → has_bom f.body ≡ false
    → has_cr (sent_type f) ≡ false
    → trim_space (sent_type f) ≡ sent_type f
    → length (sent_type f) + 14 ≤ max_header_line_size
    → read_frame false (write_one f ++ rest)
      ≡ got_frame (record f { content_type = sent_type f }) rest
unfolding read_frame
read_frame-write_one f rest passes no_bom clean trimmed short =
    read_wire (length (write_one f ++ rest)) f rest
      (unfold bytes in omega (arith, ap (length) (wire_lem f rest))) passes no_bom clean trimmed
      short
