-- ===== src/Challenges/Decimal/ReadBack.antt =====
-- A number that Rust writes in decimal is read back.
use Prim.Native.Nat.pow
use embernet.Prelude.{
  ℕ, zero, suc, Str, [], ◌∷◌, ◌+◌, ◌-◌, ◌*◌, ◌/◌, ◌%◌, ◌^◌, ◌≤◌, ◌<◌, some, leb, ltb, ◌&&◌, ◌==◌,
  nat_eq, ◌≡◌, refl, sym, ap, ◌∙◌, true, false, Bool-cases, inl, inr, arith,
}
use embernet.I64.{is_negative}
use embernet.Challenges.Decimal.{digits, show_i64, read_digits, read_bounded, parse_i64}

read_digit :
    (acc d : ℕ) (s : Str) → d < 10 → read_digits acc ((b'0' + d) ∷ s) ≡ read_digits (acc * 10 + d) s
unfolding read_digits
read_digit acc d s h =
    let e : acc * 10 + (b'0' + d - b'0') ≡ acc * 10 + d = omega arith in
    let in_range : (leb b'0' (b'0' + d) && leb (b'0' + d) b'9') ≡ true = ground arith in
    rw (in_range, e) refl

-- As many digits as are asked for are enough for numbers below that power of ten.
pub read-digits :
    (n a : ℕ) (s : Str) → a < 10 ^ suc n → read_digits 0 (digits (suc n) a s) ≡ read_digits a s
unfolding digits
read-digits zero a s h =
    let small : ltb a 10 ≡ true = ground arith in
    let e : 0 * 10 + a % 10 ≡ a = omega arith in
    rw small (read_digit 0 (a % 10) s (omega arith) ∙ ap (λ x. read_digits x s) e)
read-digits (suc n) a s h = elim (Bool-cases (ltb a 10)) [
  | inl b ↦
      let e : 0 * 10 + a % 10 ≡ a = ground arith in
      rw b (read_digit 0 (a % 10) s (omega arith) ∙ ap (λ x. read_digits x s) e)
  | inr b ↦
      let lower : a / 10 < 10 ^ suc n = omega (arith, pow.suc 10 (suc n)) in
      let e : a / 10 * 10 + a % 10 ≡ a = omega arith in
      rw b (
        read-digits n (a / 10) ((b'0' + a % 10) ∷ s) lower
        ∙ read_digit (a / 10) (a % 10) s (omega arith)
        ∙ ap (λ x. read_digits x s) e)
]

record StartsWithDigit (s : Str) : Type 0 where
  first : ℕ
  later : Str
  shape : s ≡ first ∷ later
  low : b'0' ≤ first
  high : first ≤ b'9'

digits-StartsWithDigit : (n a : ℕ) (s : Str) → StartsWithDigit (digits (suc n) a s)
unfolding digits
digits-StartsWithDigit zero a s = elim (Bool-cases (ltb a 10)) [
  | inl b ↦ rw b (record {
    first = b'0' + a % 10;
    later = s;
    shape = refl;
    low = omega arith;
    high = omega arith;
  })
  | inr b ↦ rw b (record {
    first = b'0' + a % 10;
    later = s;
    shape = refl;
    low = omega arith;
    high = omega arith;
  })
]
digits-StartsWithDigit (suc n) a s = elim (Bool-cases (ltb a 10)) [
  | inl b ↦ rw b (record {
    first = b'0' + a % 10;
    later = s;
    shape = refl;
    low = omega arith;
    high = omega arith;
  })
  | inr b ↦ rw b (digits-StartsWithDigit n (a / 10) ((b'0' + a % 10) ∷ s))
]

read_bounded_found :
    (bound a c : ℕ) (s : Str)
    → read_digits 0 (c ∷ s) ≡ some a
    → a ≤ bound
    → read_bounded bound (c ∷ s) ≡ some a
unfolding read_bounded
read_bounded_found bound a c s e small = ground (arith, e)

pub read_bounded-digits :
    (bound a : ℕ) → a ≤ bound → a < 10 ^ 20 → read_bounded bound (digits 20 a []) ≡ some a
unfolding read_digits
read_bounded-digits bound a small h =
    let d = digits-StartsWithDigit 19 a [] in
    let read : read_digits 0 (digits 20 a []) ≡ some a = read-digits 19 a [] h in
    let found =
      read_bounded_found bound a d.first d.later (sym (ap (read_digits 0) d.shape) ∙ read) small in
    rw d.shape found

-- Every `i64` is read back from its decimal form: 20 digits are enough for it, with its sign in front.
pub parse-show_i64 : (a : ℕ) → a < 2 ^ 64 → parse_i64 (show_i64 a) ≡ some a
unfolding parse_i64 show_i64
parse-show_i64 a h = elim (Bool-cases (is_negative a)) [
  | inl b ↦
      let size : 2 ^ 64 - a ≤ 2 ^ 63 = ground arith in
      let e : (2 ^ 64 - (2 ^ 64 - a)) % 2 ^ 64 ≡ a = omega arith in
      rw (b, read_bounded-digits (2 ^ 63) (2 ^ 64 - a) size (omega arith)) (ap some e)
  | inr b ↦
      let size : a ≤ 2 ^ 63 - 1 = ground arith in
      let read = read_bounded-digits (2 ^ 63 - 1) a size (omega arith) in
      let d = digits-StartsWithDigit 19 a [] in
      let not_minus : (d.first == b'-') ≡ false = ground (arith, d.low) in
      let not_plus : (d.first == b'+') ≡ false = ground (arith, d.low) in
      rw (b, d.shape, not_minus, not_plus) (rw d.shape at read)
]
