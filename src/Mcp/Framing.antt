-- ===== src/Mcp/Framing.antt =====
-- The framing of messages on the standard streams in src/mcp.rs: `read_mcp_message` and
-- `write_response`. A reader is the bytes that it has left; white space is that of ASCII.
pub mod RoundTrip
pub mod Progress
use embernet.Prelude.{
  ℕ, Bytes, Str, Bool, true, false, ◌&&◌, ◌||◌, codes, List, [], ◌∷◌, ◌++◌, ◌-◌, ◌^◌, Option, none,
  some, length, leb, take, drop, ◌==◌, nat_eq, str_eq, is_empty, if◌then◌else◌,
}
use embernet.Fallible.{
  Result, Error, ok, err, ensure, context, not_utf8, message_too_large, bad_content_length,
  missing_content_length, short_read,
}
use embernet.Peers.{trim, to_lowercase}
use embernet.Encryption.Utf8.{is_utf8}
use embernet.Challenges.Decimal.{digits, read_bounded}

abbrev pub max_mcp_message_bytes : ℕ
max_mcp_message_bytes = 1048576

-- `str::parse::<usize>`, where a `usize` has 64 bits.
unfoldable pub parse_usize : Str → Option ℕ
parse_usize [] = none
parse_usize (c ∷ s) =
    if c == b'+' then read_bounded (2 ^ 64 - 1) s else read_bounded (2 ^ 64 - 1) (c ∷ s)

-- `Display` of a `usize`.
abbrev pub show_usize : ℕ → Str
show_usize n = digits 20 n []

abbrev pub is_line_end : ℕ → Bool
is_line_end c = c == b'\r' || c == b'\n'

-- `trim_end_matches(['\r', '\n'])`.
unfoldable pub trim_line_end : Bytes → Bytes
trim_line_end [] = []
trim_line_end (c ∷ s) =
    let rest = trim_line_end s in if is_line_end c && is_empty rest then [] else c ∷ rest

-- `split_once(':')`.
unfoldable pub split_once : Bytes → Option (Bytes × Bytes)
split_once [] = none
split_once (c ∷ s) =
    let rest = split_once s in
    if c == b':' then some ([], s) else (elim rest [ none ↦ none | some (a, b) ↦ some (c ∷ a, b) ])

-- What becomes of a line that is not blank.
pub data LineEvent : Type 0 where
  message_line : Bytes → LineEvent
  header_line : ℕ → LineEvent
  ignored_line : LineEvent

abbrev pub starts_message : Bytes → Bool
starts_message [] = false
starts_message (c ∷ s) = c == b'{'

abbrev pub within_limit : ℕ → Result (Unit {0})
within_limit n = ensure (leb n max_mcp_message_bytes) message_too_large

-- A line with a colon.
unfoldable pub read_header : Bytes × Bytes → Result LineEvent
read_header (name, value) =
    if to_lowercase name == to_lowercase (codes "Content-Length")
    then (elim (parse_usize (trim value)) [
      | none ↦ err bad_content_length
      | some n ↦ elim (within_limit n) [ ok _ ↦ ok (header_line n) | err e ↦ err e ]
    ])
    else ok ignored_line

unfoldable pub read_event : Bytes → Result LineEvent
read_event trimmed =
    if starts_message trimmed
    then (elim (within_limit (length trimmed)) [ ok _ ↦ ok (message_line trimmed) | err e ↦ err e ])
    else (elim (split_once trimmed) [ none ↦ ok ignored_line | some parts ↦ read_header parts ])

-- What reading gives, and what the reader has left.
abbrev pub Read : Type 0
Read = Result (Option Bytes) × Bytes

-- The body behind the headers.
unfoldable pub read_body : Option ℕ → Bytes → Read
read_body none rest = (err missing_content_length, rest)
read_body (some n) rest =
    if leb n (length rest) then (ok (some (take n rest)), drop n rest) else (err short_read, [])

-- The rest of the loop at an event; `more` goes on with a length.
unfoldable pub act_on : Result LineEvent → Option ℕ → (Option ℕ → Read) → Bytes → Read
act_on (err e) len more rest = (err e, rest)
act_on (ok (message_line m)) len more rest = (ok (some m), rest)
act_on (ok (header_line n)) len more rest = more (some n)
act_on (ok ignored_line) len more rest = more len

-- A line that has been read, with its end.
unfoldable pub after_line : Bytes → Option ℕ → (Option ℕ → Read) → Bytes → Read
after_line line len more rest =
    if is_utf8 line
    then (if is_empty (trim_line_end line)
        then read_body len rest
        else act_on (read_event (trim_line_end line)) len more rest)
    else (err not_utf8, rest)

-- The loop of `read_mcp_message`, with the line so far: `read_line` goes up to a newline or the end.
unfoldable pub read_lines : Bytes → Option ℕ → Bytes → Read
read_lines line len [] =
    if is_empty line then (ok none, []) else after_line line len (λ _. (ok none, [])) []
read_lines line len (c ∷ s) =
    let longer = read_lines (line ++ c ∷ []) len s in
    if c == b'\n' then after_line (line ++ c ∷ []) len (λ n. read_lines [] n s) s else longer

unfoldable pub read_mcp_message : Bytes → Read
read_mcp_message input = read_lines [] none input

-- What `write_response` writes, for the JSON of a response.
unfoldable pub frame : Bytes → Bytes
frame body =
    codes "Content-Length: " ++ (show_usize (length body) ++ b'\r' ∷ b'\n' ∷ b'\r' ∷ b'\n' ∷ body)
