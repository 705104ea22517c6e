-- ===== src/Challenges/Decimal.antt =====
-- How Rust writes and reads an `i64` in decimal. Numbers are 64-bit patterns.
pub mod ReadBack
use embernet.Prelude.{
  ℕ, zero, suc, Str, [], ◌∷◌, ◌+◌, ◌-◌, ◌*◌, ◌/◌, ◌%◌, ◌^◌, Option, none, some, leb, ltb, ◌&&◌,
  ◌==◌, nat_eq, if◌then◌else◌,
}
use embernet.I64.{is_negative}

-- The last `n` digits without leading zeros, before the text `s`.
unfoldable pub digits : ℕ → ℕ → Str → Str
digits zero a s = s
digits (suc n) a s =
    let more = digits n (a / 10) ((b'0' + a % 10) ∷ s) in
    if ltb a 10 then (b'0' + a % 10) ∷ s else more

-- `Display`. A number below 2 ^ 64 has at most 20 digits.
unfoldable pub show_i64 : ℕ → Str
show_i64 a = if is_negative a then b'-' ∷ digits 20 (2 ^ 64 - a) [] else digits 20 a []

unfoldable pub read_digits : ℕ → Str → Option ℕ
read_digits acc [] = some acc
read_digits acc (c ∷ s) =
    let rest = read_digits (acc * 10 + (c - b'0')) s in
    if leb b'0' c && leb c b'9' then rest else none

-- At least one digit, and a value of at most `bound`.
unfoldable pub read_bounded : ℕ → Str → Option ℕ
read_bounded bound [] = none
read_bounded bound (c ∷ s) = elim (read_digits 0 (c ∷ s)) [
  | none ↦ none
  | some a ↦ if leb a bound then some a else none
]

-- `str::parse::<i64>`.
unfoldable pub parse_i64 : Str → Option ℕ
parse_i64 [] = none
parse_i64 (c ∷ s) =
    if c == b'-'
    then (elim (read_bounded (2 ^ 63) s) [ none ↦ none | some a ↦ some ((2 ^ 64 - a) % 2 ^ 64) ])
    else (if c == b'+' then read_bounded (2 ^ 63 - 1) s else read_bounded (2 ^ 63 - 1) (c ∷ s))
