-- ===== src/Protocol/Frame/Lines.antt =====
-- The lines and the parts of a frame that the writer writes, read one by one.
use brain.Prelude.Text.{Bytes, is_bytes, bytes, trim_space, to_lower, format_int}
use brain.Prelude.{
  ℕ, ◌-◌, ◌≤◌, ◌≡◌, refl, Bool, false, ◌||◌, some, [], ◌∷◌, ◌++◌, arith, ltb, if◌then◌else◌, nat_eq,
  string_eq, ◌==◌, is_nil, length, All,
}
use brain.Prelude.Int.{pos, int_eq}
use brain.Prelude.Result.{ok}
use brain.Prelude.Text.Decimal.{
  IsDigit, atoi-format_int, trim_space-digits, trim_space-blank, format_int-IsDigit,
}
use brain.Protocol.Frame.{
  set_header, Frame, max_body_size, canonical_content_type, got_line, read_line, split_colon,
  split_header, Headers, split_body,
}

-- The content type that goes out.
abbrev pub sent_type : Frame → Bytes
sent_type f = if is_nil f.content_type then canonical_content_type else f.content_type

abbrev pub has_cr : Bytes → Bool
has_cr [] = false
has_cr (b ∷ s) = b == 13 || has_cr s

has_cr-append : (s t : Bytes) → has_cr s ≡ false → has_cr t ≡ false → has_cr (s ++ t) ≡ false
has_cr-append [] t p q = q
has_cr-append (b ∷ s) t p q = ground (arith, has_cr-append s t (ground (arith, p)) q, p)

pub has_cr-digits : (s : Bytes) → All IsDigit s → has_cr s ≡ false
has_cr-digits [] h = refl
has_cr-digits (b ∷ s) h = ground (arith, has_cr-digits s h.1, h.0)

pub read_line_lem :
    (room : ℕ) (line rest : Bytes)
    → has_cr line ≡ false
    → length line ≤ room
    → read_line room (line ++ 13 ∷ 10 ∷ rest) ≡ got_line line rest
unfolding read_line
read_line_lem room [] rest clean h = refl
read_line_lem room (b ∷ line) rest clean h =
    let not_cr : (b == 13) ≡ false = ground (arith, clean) in
    let some_room : (room == 0) ≡ false = ground (arith, h) in
    let later : has_cr line ≡ false = ground (arith, clean) in
    rw (not_cr, some_room, read_line_lem (room - 1) line rest later (omega (arith, h))) refl

pub split_body_lem :
    (body rest : Bytes) → split_body (length body) (body ++ rest) ≡ some (body, rest)
unfolding split_body
split_body_lem [] rest = refl
split_body_lem (b ∷ body) rest = rw (split_body_lem body rest) refl

split-content_length :
    (x : Bytes)
    → split_header (bytes "Content-Length: " ++ x)
      ≡ some (bytes "Content-Length", trim_space (32 ∷ x))
unfolding split_header split_colon bytes
split-content_length x = refl

split-content_type :
    (x : Bytes)
    → split_header (bytes "Content-Type: " ++ x) ≡ some (bytes "Content-Type", trim_space (32 ∷ x))
unfolding split_header split_colon bytes
split-content_type x = refl

pub set-content_length :
    (h : Headers) (n : ℕ)
    → n ≤ max_body_size
    → set_header h (split_header (bytes "Content-Length: " ++ format_int n))
      ≡ ok (record h { content_length = pos n })
set-content_length h n small =
    let once = trim_space-digits (format_int n) (format_int-IsDigit n) in
    let under : ltb max_body_size n ≡ false = ground (arith, small) in
    rw (split-content_length (format_int n), trim_space-blank (format_int n), once)
      (unfold to_lower is_bytes bytes in rw (once, atoi-format_int n (omega arith), under) refl)

pub set-content_type :
    (h : Headers) (ct : Bytes)
    → trim_space ct ≡ ct
    → set_header h (split_header (bytes "Content-Type: " ++ ct))
      ≡ ok (record h { content_type = ct })
set-content_type h ct clean =
    rw (split-content_type ct, trim_space-blank ct, clean)
      (unfold to_lower is_bytes bytes in rw clean refl)
