-- ===== src/I64.antt =====
-- The arithmetic of `i64` in a release build, where it wraps. A number is its pattern of 64 bits, so
-- from 2 ^ 63 on it is negative.
use embernet.Prelude.{
  ℕ, Bool, false, ◌+◌, ◌-◌, ◌%◌, ◌^◌, ◌≤◌, ◌<◌, ltb, leb, ◌≡◌, ◌↔◌, arith, if◌then◌else◌, nat_eq,
}

abbrev pub is_negative : ℕ → Bool
is_negative a = leb (2 ^ 63) a

unfoldable pub add_i64 : ℕ → ℕ → ℕ
add_i64 a b = (a + b) % 2 ^ 64

unfoldable pub sub_i64 : ℕ → ℕ → ℕ
sub_i64 a b = (a + (2 ^ 64 - b)) % 2 ^ 64

-- `abs`, which leaves the least number as it is.
unfoldable pub abs_i64 : ℕ → ℕ
abs_i64 a = if is_negative a then 2 ^ 64 - a else a

-- `<`.
unfoldable pub lt_i64 : ℕ → ℕ → Bool
lt_i64 a b = ltb ((a + 2 ^ 63) % 2 ^ 64) ((b + 2 ^ 63) % 2 ^ 64)

-- The test `(now - timestamp).abs() > 60`.
unfoldable pub is_stale : ℕ → ℕ → Bool
is_stale now timestamp = lt_i64 60 (abs_i64 (sub_i64 now timestamp))

pub lt_i64-small : (a b : ℕ) → a < 2 ^ 63 → b < 2 ^ 63 → lt_i64 a b ≡ ltb a b
unfolding lt_i64
lt_i64-small a b ha hb = ground arith

-- Of two times that are not negative, the test finds the second one stale exactly where they are more
-- than 60 seconds apart.
pub is_stale-small :
    (now timestamp : ℕ)
    → now < 2 ^ 63
    → timestamp < 2 ^ 63
    → (is_stale now timestamp ≡ false) ↔ ((now ≤ timestamp + 60) × (timestamp ≤ now + 60))
unfolding is_stale abs_i64 sub_i64 lt_i64
is_stale-small now timestamp hn ht = ground arith

-- A time stamp that lies 2 ^ 63 seconds from the present is not found stale: the difference is the
-- least number, which is its own absolute value.
pub is_stale-wraps : (now : ℕ) → now < 2 ^ 63 → is_stale now (now + 2 ^ 63) ≡ false
unfolding is_stale abs_i64 sub_i64 lt_i64
is_stale-wraps now h = ground arith
