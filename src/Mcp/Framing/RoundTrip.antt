-- ===== src/Mcp/Framing/RoundTrip.antt =====
-- What `write_response` of src/mcp.rs writes is read back by `read_mcp_message`.
use embernet.Prelude.{
  ℕ, zero, suc, Bytes, Str, true, false, codes, [], ◌∷◌, ◌++◌, ◌+◌, ◌-◌, ◌/◌, ◌%◌, ◌^◌, ◌≤◌, ◌<◌,
  Option, none, some, length, leb, ltb, str_beq, str_eq, take_front, drop_front, ◌==◌, nat_eq, All,
  All-append, length-append, ◌≡◌, refl, sym, ap, ◌∙◌, Bool-cases, inl, inr, arith,
}
use mathlib.Core.List.{append_assoc}
use embernet.Fallible.{ok}
use embernet.Ndjson.{is_white}
use embernet.Peers.{trim_start, trim_end, trim, to_lowercase}
use embernet.Encryption.Utf8.{is_utf8, utf8_from, ascii-is_utf8}
use embernet.Challenges.Decimal.{digits, read_bounded}
use embernet.Challenges.Decimal.ReadBack.{read_bounded-digits}
use embernet.Mcp.Framing.{
  max_mcp_message_bytes, parse_usize, show_usize, is_line_end, trim_line_end, split_once,
  header_line, read_header, read_event, Read, read_body, act_on, after_line, read_lines,
  read_mcp_message, frame,
}

-- A character of ASCII that does not end a line.
abbrev IsPlain : ℕ → Type 0
IsPlain c = (is_line_end c ≡ false) × (c < 128)

abbrev IsDigit : ℕ → Type 0
IsDigit c = (b'0' ≤ c) × (c ≤ b'9')

digits-IsDigit : (n a : ℕ) (s : Str) → All IsDigit s → All IsDigit (digits n a s)
unfolding digits
digits-IsDigit zero a s h = h
digits-IsDigit (suc n) a s h =
    let first : IsDigit (b'0' + a % 10) = (omega arith, omega arith) in
    elim (Bool-cases (ltb a 10)) [
      | inl b ↦ rw b (first, h)
      | inr b ↦ rw b (digits-IsDigit n (a / 10) ((b'0' + a % 10) ∷ s) (first, h))
    ]

IsPlain-digits : (s : Str) → All IsDigit s → All IsPlain s
IsPlain-digits [] h = tt
IsPlain-digits (c ∷ s) (d, h) = ((ground arith, omega arith), IsPlain-digits s h)

abbrev IsInside : ℕ → Type 0
IsInside c = (c == b'\n') ≡ false

IsInside-plain : (s : Str) → All IsPlain s → All IsInside s
IsInside-plain [] h = tt
IsInside-plain (c ∷ s) ((plain, _), h) = (ground arith, IsInside-plain s h)

-- Reading goes on to the end of the line.
read_lines-line :
    (l line rest : Bytes) (len : Option ℕ)
    → All IsInside l
    → read_lines line len (l ++ b'\n' ∷ rest)
      ≡ after_line (line ++ (l ++ b'\n' ∷ [])) len (λ n. read_lines [] n rest) rest
unfolding read_lines
read_lines-line [] line rest len h = refl
read_lines-line (c ∷ l) line rest len (inside, h) = rw inside (
    read_lines-line l (line ++ c ∷ []) rest len h
    ∙ ap (λ x. after_line x len (λ n. read_lines [] n rest) rest)
        (append_assoc line (c ∷ []) (l ++ b'\n' ∷ [])))

trim_line_end-plain : (l : Bytes) → All IsPlain l → trim_line_end (l ++ b'\r' ∷ b'\n' ∷ []) ≡ l
unfolding trim_line_end
trim_line_end-plain [] h = refl
trim_line_end-plain (c ∷ l) ((plain, _), h) = rw (plain, trim_line_end-plain l h) refl

trim_end-digits : (s : Str) → All IsDigit s → trim_end s ≡ s
unfolding trim_end
trim_end-digits [] h = refl
trim_end-digits (c ∷ s) (d, h) =
    let black : is_white c ≡ false = ground arith in rw (black, trim_end-digits s h) refl

trim_start-digits : (s : Str) → All IsDigit s → trim_start s ≡ s
unfolding trim_start
trim_start-digits [] h = refl
trim_start-digits (c ∷ s) (d, h) = let black : is_white c ≡ false = ground arith in rw black refl

trim-digits : (s : Str) → All IsDigit s → trim (b' ' ∷ s) ≡ s
unfolding trim_start
trim-digits s h = rw (trim_start-digits s h) (trim_end-digits s h)

parse_digits : (s : Str) → All IsDigit s → parse_usize s ≡ read_bounded (2 ^ 64 - 1) s
unfolding parse_usize read_bounded
parse_digits [] h = refl
parse_digits (c ∷ s) (d, h) = let other : (c == b'+') ≡ false = ground arith in rw other refl

abbrev prefix : Bytes
prefix = codes "Content-Length: "

prefix-IsPlain : All IsPlain prefix
prefix-IsPlain = ground arith

abbrev header_of : ℕ → Bytes
header_of n = prefix ++ show_usize n

header_of-IsPlain : (n : ℕ) → All IsPlain (header_of n)
header_of-IsPlain n =
    All-append IsPlain prefix (show_usize n) prefix-IsPlain
      (IsPlain-digits (show_usize n) (digits-IsDigit 20 n [] tt))

read_event-header_of :
    (n : ℕ) → n ≤ max_mcp_message_bytes → read_event (header_of n) ≡ ok (header_line n)
unfolding read_event read_header split_once to_lowercase str_beq
read_event-header_of n small =
    let d = digits-IsDigit 20 n [] tt in
    let parsed : parse_usize (show_usize n) ≡ some n =
      parse_digits (show_usize n) d
      ∙ read_bounded-digits (2 ^ 64 - 1) n (omega arith) (omega arith) in
    let within : leb n max_mcp_message_bytes ≡ true = ground arith in
    rw (trim-digits (show_usize n) d, parsed, within) refl

-- The whole header line, up to its newline.
abbrev line_of : ℕ → Bytes
line_of n = header_of n ++ b'\r' ∷ []

line_of-IsInside : (n : ℕ) → All IsInside (line_of n)
line_of-IsInside n =
    All-append IsInside (header_of n) (b'\r' ∷ [])
      (IsInside-plain (header_of n) (header_of-IsPlain n)) (refl, tt)

ascii_plain : (s : Bytes) → All IsPlain s → All (λ c. c < 128) s
ascii_plain [] h = tt
ascii_plain (c ∷ s) ((_, ascii), h) = (ascii, ascii_plain s h)

line_of-is_utf8 : (n : ℕ) → is_utf8 (header_of n ++ b'\r' ∷ b'\n' ∷ []) ≡ true
line_of-is_utf8 n = ascii-is_utf8 (header_of n ++ b'\r' ∷ b'\n' ∷ []) (
    All-append (λ c. c < 128) (header_of n) (b'\r' ∷ b'\n' ∷ [])
      (ascii_plain (header_of n) (header_of-IsPlain n)) (omega arith, (omega arith, tt)))

-- The header line sets the length and the reading goes on.
after_line-header :
    (n : ℕ) (len : Option ℕ) (more : Option ℕ → Read) (rest : Bytes)
    → n ≤ max_mcp_message_bytes
    → after_line (line_of n ++ b'\n' ∷ []) len more rest ≡ more (some n)
unfolding after_line act_on
after_line-header n len more rest small =
    let shape : line_of n ++ b'\n' ∷ [] ≡ header_of n ++ b'\r' ∷ b'\n' ∷ [] =
      append_assoc (header_of n) (b'\r' ∷ []) (b'\n' ∷ []) in
    rw
      (
        shape,
        line_of-is_utf8 n,
        trim_line_end-plain (header_of n) (header_of-IsPlain n),
        read_event-header_of n small,
      )
      refl

read_body-append :
    (body rest : Bytes) → read_body (some (length body)) (body ++ rest) ≡ (ok (some body), rest)
unfolding read_body
read_body-append body rest =
    let there : leb (length body) (length (body ++ rest)) ≡ true =
      ground (arith, length-append body rest) in
    rw (there, take_front (length body) body rest refl, drop_front (length body) body rest refl)
      refl

-- A frame that is written in front of any other bytes is read back as its body, of at most 1048576
-- bytes, and leaves exactly the other bytes.
pub frame-read_mcp_message :
    (body rest : Bytes)
    → length body ≤ max_mcp_message_bytes
    → read_mcp_message (frame body ++ rest) ≡ (ok (some body), rest)
unfolding read_mcp_message frame read_lines after_line trim_line_end is_utf8 utf8_from
frame-read_mcp_message body rest small =
    let n = length body in
    let tail = b'\r' ∷ b'\n' ∷ (body ++ rest) in
    let shape : (prefix ++ (show_usize n ++ b'\r' ∷ b'\n' ∷ b'\r' ∷ b'\n' ∷ body)) ++ rest
        ≡ line_of n ++ b'\n' ∷ tail =
      ap (λ x. prefix ++ x)
        (append_assoc (show_usize n) (b'\r' ∷ b'\n' ∷ b'\r' ∷ b'\n' ∷ body) rest
          ∙ sym (append_assoc (show_usize n) (b'\r' ∷ []) (b'\n' ∷ tail))) in
    ap (read_lines [] none) shape
    ∙ read_lines-line (line_of n) [] tail none (line_of-IsInside n)
    ∙ after_line-header n none (λ m. read_lines [] m tail) tail small
    ∙ read_body-append body rest
