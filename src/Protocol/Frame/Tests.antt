-- ===== src/Protocol/Frame/Tests.antt =====
-- Frames that are written and read back.
use brain.Prelude.Text.{
  Bytes, is_bytes, bytes, drop, trim_front, trim_space, to_lower, parse_digits, atoi,
}
use mathlib.Core.Option.{bind}
use brain.Prelude.{◌≤◌, ◌<◌, ◌≡◌, refl, ◌⊎◌, false, [], ◌∷◌, ◌++◌, arith}
use brain.Prelude.Int.{pos}
use brain.Protocol.Frame.{
  read_body, body_at, after_line, Frame, max_header_line_size, crlf, canonical_content_type,
  read_line, read_header_line, split_colon, split_header, got_frame, read_error, split_body,
  read_headers, read_frame, write_one, check_frame,
}
use brain.Protocol.Frame.RoundTrip.{read_frame-write_one}
use brain.Protocol.Frame.Limits.{IsSound, read_frame-IsSound}
use brain.Protocol.Frame.Malformed.{unfinished_line}
use brain.Protocol.Frame.Writer.{seen}
use brain.Errors.Codes

abbrev a_body : Bytes
a_body = 123 ∷ 34 ∷ 34 ∷ 125 ∷ []

abbrev a_frame : Frame
a_frame = record { content_length = pos 4; content_type = []; body = a_body }

lower_case :
    read_frame false
      (bytes "content-LENGTH:  +4 " ++ crlf ++ bytes "X-Y:z" ++ crlf ++ crlf ++ a_body)
    ≡ got_frame a_frame []
unfolding bytes read_frame read_headers after_line read_header_line read_line split_header
    split_colon trim_space trim_front drop to_lower is_bytes atoi parse_digits body_at read_body
    split_body bind
lower_case = refl

byte_order_mark :
    read_frame false (bytes "Content-Length: 3" ++ crlf ++ crlf ++ 239 ∷ 187 ∷ 191 ∷ [])
    ≡ read_error Codes.frame_parse_error
unfolding bytes read_frame read_headers after_line read_header_line read_line split_header
    split_colon trim_space trim_front drop to_lower is_bytes atoi parse_digits body_at read_body
    split_body bind
byte_order_mark = refl

read_frame-write_one_example :
    read_frame false (write_one a_frame ++ a_body) ≡ got_frame (seen a_frame) a_body
unfolding check_frame canonical_content_type bytes trim_space trim_front drop
read_frame-write_one_example = read_frame-write_one a_frame a_body refl refl refl refl (omega arith)

read_frame-IsSound_example : IsSound (read_frame false (write_one a_frame))
read_frame-IsSound_example = read_frame-IsSound false (write_one a_frame)

unfinished_line_example :
    ((max_header_line_size < 4)
      × (read_frame false (a_body ++ a_body) ≡ read_error Codes.frame_parse_error))
    ⊎ ((4 ≤ max_header_line_size) × (read_frame false a_body ≡ read_error Codes.sidecar_stdout_eof))
unfinished_line_example = unfinished_line a_body a_body refl
