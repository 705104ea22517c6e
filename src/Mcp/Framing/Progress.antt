-- ===== src/Mcp/Framing/Progress.antt =====
-- Reading a message in src/mcp.rs takes bytes from the reader.
use embernet.Prelude.{
  ℕ, zero, suc, Bytes, [], ◌∷◌, ◌++◌, ◌≤◌, ◌<◌, Option, none, some, length, leb, drop, ◌==◌, nat_eq,
  is_empty, ◌≡◌, ap, Bool-cases, inl, inr, arith,
}
use embernet.Fallible.{Result, ok, err, ok-injective}
use embernet.Encryption.Utf8.{is_utf8}
use embernet.Mcp.Framing.{
  LineEvent, message_line, header_line, ignored_line, Read, read_body, read_event, act_on,
  trim_line_end, after_line, read_lines, read_mcp_message,
}

length-drop : (n : ℕ) (s : Bytes) → length (drop n s) ≤ length s
length-drop zero s = omega arith
length-drop (suc n) [] = omega arith
length-drop (suc n) (c ∷ s) = omega (arith, length-drop n s)

-- What the reader has left is no more than `n` bytes.
abbrev LeavesAtMost : ℕ → Read → Type 0
LeavesAtMost n r = length r.1 ≤ n

read_body-LeavesAtMost :
    (len : Option ℕ) (rest : Bytes) → LeavesAtMost (length rest) (read_body len rest)
unfolding read_body
read_body-LeavesAtMost none rest = omega arith
read_body-LeavesAtMost (some n) rest = elim (Bool-cases (leb n (length rest))) [
  | inl b ↦ rw b (length-drop n rest)
  | inr b ↦ rw b (omega arith)
]

module _ (n : ℕ) (len : Option ℕ) (more : Option ℕ → Read) (rest : Bytes) (small : length rest ≤ n)
    (later : (m : Option ℕ) → LeavesAtMost n (more m)) where
  act_on-LeavesAtMost : (event : Result LineEvent) → LeavesAtMost n (act_on event len more rest)
  unfolding act_on
  act_on-LeavesAtMost (err e) = small
  act_on-LeavesAtMost (ok (message_line m)) = small
  act_on-LeavesAtMost (ok (header_line i)) = later (some i)
  act_on-LeavesAtMost (ok ignored_line) = later len

  after_line-LeavesAtMost : (line : Bytes) → LeavesAtMost n (after_line line len more rest)
  unfolding after_line
  after_line-LeavesAtMost line = elim (Bool-cases (is_utf8 line)) [
    | inr b ↦ rw b small
    | inl b ↦ elim (Bool-cases (is_empty (trim_line_end line))) [
      | inl e ↦ rw (b, e) (omega (arith, read_body-LeavesAtMost len rest))
      | inr e ↦ rw (b, e) (act_on-LeavesAtMost (read_event (trim_line_end line)))
    ]
  ]

read_lines-LeavesAtMost :
    (s line : Bytes) (len : Option ℕ) → LeavesAtMost (length s) (read_lines line len s)
unfolding read_lines
read_lines-LeavesAtMost [] line len = elim (Bool-cases (is_empty line)) [
  | inl b ↦ rw b (omega arith)
  | inr b ↦
      rw b (
        after_line-LeavesAtMost 0 len (λ _. (ok none, [])) [] (omega arith) (λ _. omega arith) line)
]
read_lines-LeavesAtMost (c ∷ s) line len =
    let longer = read_lines-LeavesAtMost s (line ++ c ∷ []) len in
    let again : (n : Option ℕ) → LeavesAtMost (length s) (read_lines [] n s) =
      λ n. read_lines-LeavesAtMost s [] n in
    elim (Bool-cases (c == b'\n')) [
      | inr b ↦ rw b (omega (arith, longer))
      | inl b ↦ rw b (
          omega (
            arith,
            after_line-LeavesAtMost (length s) len (λ n. read_lines [] n s) s (omega arith) again
                (line ++ c ∷ []),
          ))
    ]

-- From bytes that are left, at least one is taken.
read_mcp_message-LeavesAtMost :
    (c : ℕ) (s : Bytes) → LeavesAtMost (length s) (read_mcp_message (c ∷ s))
unfolding read_mcp_message read_lines
read_mcp_message-LeavesAtMost c s =
    let longer = read_lines-LeavesAtMost s (c ∷ []) none in
    let again : (n : Option ℕ) → LeavesAtMost (length s) (read_lines [] n s) =
      λ n. read_lines-LeavesAtMost s [] n in
    elim (Bool-cases (c == b'\n')) [
      | inr b ↦ rw b longer
      | inl b ↦ rw b (
          after_line-LeavesAtMost (length s) none (λ n. read_lines [] n s) s (omega arith) again
            (c ∷ []))
    ]

-- A reader with nothing left gives no message, and any other is left with less.
pub read_mcp_message-shorter :
    (input m rest : Bytes)
    → read_mcp_message input ≡ (ok (some m), rest)
    → length rest < length input
unfolding read_mcp_message read_lines
read_mcp_message-shorter [] m rest h =
    absurd (cc (ok-injective none (some m) (ap (λ (r : Read). r.0) h)))
read_mcp_message-shorter (c ∷ s) m rest h =
    omega (arith, read_mcp_message-LeavesAtMost c s, ap (λ (r : Read). length r.1) h)
