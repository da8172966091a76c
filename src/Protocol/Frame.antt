-- ===== src/Protocol/Frame.antt =====
-- protocol/frame.go: the framing of messages on a sidecar's standard streams. A stream is the bytes
-- that are still to be read, after which it ends; an I/O error other than the end of the stream, the
-- position of the reader after an error, and the text and the cause of an error are left out: an
-- error is its code.
use brain.Prelude.Text.{Bytes, is_bytes, bytes, trim_space, to_lower, format_int, atoi}
use brain.Prelude.Int.{ℤ, pos, negsuc, pos_part, ltb_ℤ, int_eq}
use brain.Prelude.Result.{Result, ok, err}
use brain.Prelude.{
  ℕ, zero, suc, ◌-◌, ◌*◌, String, Bool, true, false, ◌&&◌, not, Option, none, some, [], ◌∷◌, ◌++◌,
  ltb, if◌then◌else◌, nat_eq, string_eq, ◌==◌, is_nil, length,
}
pub mod Lines
pub mod RoundTrip
pub mod Limits
pub mod Malformed
pub mod Writer
mod Tests
use brain.Errors.Codes

pub record Frame : Type 0 where
  pub content_length : ℤ
  pub content_type : Bytes
  pub body : Bytes

abbrev pub max_body_size : ℕ
max_body_size = 16 * 1024 * 1024

abbrev pub max_header_line_size : ℕ
max_header_line_size = 8192

abbrev pub crlf : Bytes
crlf = 13 ∷ 10 ∷ []

unfoldable pub canonical_content_type : Bytes
unfolding bytes
canonical_content_type = bytes "application/vscode-jsonrpc; charset=utf-8"

-- What `readHeaderLine` comes to: a line and what follows it, the end of the stream, or a bare CR or
-- a line that is too long.
pub data LineResult : Type 0 where
  got_line : Bytes → Bytes → LineResult
  at_eof malformed : LineResult

abbrev pub push : ℕ → LineResult → LineResult
push b (got_line line rest) = got_line (b ∷ line) rest
push b at_eof = at_eof
push b malformed = malformed

abbrev after_cr : Bytes → LineResult
after_cr [] = at_eof
after_cr (b ∷ s) = if b == 10 then got_line [] s else malformed

-- `readHeaderLine`, with room for so many bytes more.
pub read_line : ℕ → Bytes → LineResult
read_line room [] = at_eof
read_line room (b ∷ s) =
    let more = push b (read_line (room - 1) s) in
    if b == 13 then after_cr s else if room == 0 then malformed else more

pub read_header_line : Bytes → LineResult
unfolding read_line
read_header_line s = read_line max_header_line_size s

-- The bytes before the first colon and those after it.
pub split_colon : Bytes → Option (Bytes × Bytes)
split_colon [] = none
split_colon (b ∷ s) =
    if b == 58
    then some ([], s)
    else elim (split_colon s) [ none ↦ none | some (key, value) ↦ some (b ∷ key, value) ]

pub split_header : Bytes → Option (Bytes × Bytes)
unfolding split_colon
split_header line = elim (split_colon line) [
  | none ↦ none
  | some (key, value) ↦ some (key, trim_space value)
]

-- The variables of `ReadFrame`'s loop.
pub record Headers : Type 0 where
  pub content_length : ℤ
  pub content_type : Bytes

abbrev pub no_headers : Headers
no_headers = record { content_length = negsuc 0; content_type = [] }

abbrev checked_length : Headers → Option ℤ → Result Headers
checked_length h none = err Codes.frame_parse_error
checked_length h (some (negsuc n)) = err Codes.frame_parse_error
checked_length h (some (pos n)) =
    if ltb max_body_size n
    then err Codes.frame_too_large
    else ok (record h { content_length = pos n })

-- What one header sets.
abbrev set_header : Headers → Option (Bytes × Bytes) → Result Headers
set_header h none = err Codes.frame_parse_error
set_header h (some (key, value)) =
    if is_bytes (to_lower key) (bytes "content-length")
    then checked_length h (atoi (trim_space value))
    else if is_bytes (to_lower key) (bytes "content-type")
    then ok (record h { content_type = trim_space value })
    else ok h

-- `ReadFrame` comes to a frame and the rest of the stream, or to an error.
pub data ReadResult : Type 0 where
  got_frame : Frame → Bytes → ReadResult
  read_error : String → ReadResult
  out_of_fuel : ReadResult

abbrev has_bom : Bytes → Bool
has_bom (a ∷ b ∷ c ∷ s) = a == 239 && b == 187 && c == 191
has_bom _ = false

-- The first so many bytes of a stream and the rest, if it has so many.
pub split_body : ℕ → Bytes → Option (Bytes × Bytes)
split_body zero s = some ([], s)
split_body (suc n) [] = none
split_body (suc n) (b ∷ s) = elim (split_body n s) [
  | none ↦ none
  | some (body, rest) ↦ some (b ∷ body, rest)
]

abbrev checked_body : Headers → Option (Bytes × Bytes) → ReadResult
checked_body h none = read_error Codes.sidecar_stdout_eof
checked_body h (some (body, rest)) =
    if has_bom body
    then read_error Codes.frame_parse_error
    else got_frame
        (record { content_length = h.content_length; content_type = h.content_type; body = body })
        rest

-- The headers have ended, with this length.
abbrev body_at : Headers → Bytes → ℤ → ReadResult
unfolding split_body
body_at h s (negsuc n) = read_error Codes.frame_parse_error
body_at h s (pos n) = checked_body h (split_body n s)

abbrev read_body : Headers → Bytes → ReadResult
unfolding body_at
read_body h s = body_at h s h.content_length

-- From a header on, given the rest of the loop.
abbrev after_header : (Headers → Bytes → ReadResult) → Bytes → Result Headers → ReadResult
after_header later rest (err code) = read_error code
after_header later rest (ok h) = later h rest

-- From a line on, given the rest of the loop.
abbrev after_line : (Headers → Bytes → ReadResult) → Bool → Headers → LineResult → ReadResult
unfolding split_header read_body
after_line later saw_any h at_eof =
    read_error (if saw_any then Codes.frame_parse_error else Codes.sidecar_stdout_eof)
after_line later saw_any h malformed = read_error Codes.frame_parse_error
after_line later saw_any h (got_line [] rest) = read_body h rest
after_line later saw_any h (got_line (b ∷ line) rest) =
    after_header later rest (set_header h (split_header (b ∷ line)))

-- The loop over the headers, on fuel.
pub read_headers : ℕ → Bool → Headers → Bytes → ReadResult
unfolding read_header_line after_line
read_headers zero saw_any h s = out_of_fuel
read_headers (suc fuel) saw_any h s =
    after_line (read_headers fuel true) saw_any h (read_header_line s)

-- `ReadFrame`; whether the context is done comes first.
pub read_frame : Bool → Bytes → ReadResult
unfolding read_headers
read_frame is_done s =
    if is_done
    then read_error Codes.shutting_down
    else read_headers (suc (length s)) false no_headers s

-- `writeOne`: what it writes.
pub write_one : Frame → Bytes
unfolding canonical_content_type
write_one f =
    let ct = if is_nil f.content_type then canonical_content_type else f.content_type in
    bytes "Content-Length: "
    ++ (format_int (pos_part f.content_length)
        ++ (crlf ++ (bytes "Content-Type: " ++ (ct ++ (crlf ++ (crlf ++ f.body))))))

-- `WriteFrame` up to the hand-over to the writer's goroutine: the code of its error.
pub check_frame : Option Frame → Option String
check_frame none = some Codes.frame_encoding_error
check_frame (some f) =
    if not (f.content_length == pos (length f.body))
    then some Codes.frame_encoding_error
    else if ltb_ℤ (pos max_body_size) f.content_length
    then some Codes.frame_too_large
    else none
