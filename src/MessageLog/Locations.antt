-- ===== src/MessageLog/Locations.antt =====
-- `encode_location` and `decode_location` of src/store.rs: two 64-bit numbers in 16 bytes, the most
-- significant byte first. A number is cut to its 64 lowest bits.
use embernet.Prelude.{
  ℕ, zero, suc, Bytes, [], ◌∷◌, ◌++◌, ◌+◌, ◌*◌, ◌/◌, ◌%◌, ◌^◌, ◌<◌, take, drop, length,
  length-append, take_front, drop_front, nat_beq_iff, true, ◌==◌, nat_eq, ◌≡◌, refl, arith,
}
use embernet.Fallible.{Result, ok, ensure, bad_location}
use embernet.Fallible.Checks.{◌>>◌}

-- `to_be_bytes` of a number of that many bytes.
unfoldable pub to_be_bytes : ℕ → ℕ → Bytes
to_be_bytes zero n = []
to_be_bytes (suc w) n = to_be_bytes w (n / 256) ++ n % 256 ∷ []

-- `from_be_bytes`, from the value of the bytes before.
unfoldable pub from_be_bytes : ℕ → Bytes → ℕ
from_be_bytes n [] = n
from_be_bytes n (b ∷ s) = from_be_bytes (n * 256 + b) s

unfoldable pub encode_location : ℕ → ℕ → Bytes
encode_location offset size = to_be_bytes 8 offset ++ to_be_bytes 8 size

unfoldable pub decode_location : Bytes → Result (ℕ × ℕ)
decode_location value = do
  ensure (length value == 16) bad_location
  ok (from_be_bytes 0 (take 8 value), from_be_bytes 0 (drop 8 value))

from_be_bytes-append :
    (n : ℕ) (s t : Bytes) → from_be_bytes n (s ++ t) ≡ from_be_bytes (from_be_bytes n s) t
unfolding from_be_bytes
from_be_bytes-append n [] t = refl
from_be_bytes-append n (b ∷ s) t = from_be_bytes-append (n * 256 + b) s t

length-to_be_bytes : (w n : ℕ) → length (to_be_bytes w n) ≡ w
unfolding to_be_bytes
length-to_be_bytes zero n = refl
length-to_be_bytes (suc w) n =
    omega (
      arith,
      length-append (to_be_bytes w (n / 256)) (n % 256 ∷ []),
      length-to_be_bytes w (n / 256),
    )

from-to_be_bytes : (w n : ℕ) → n < 256 ^ w → from_be_bytes 0 (to_be_bytes w n) ≡ n
unfolding to_be_bytes from_be_bytes
from-to_be_bytes zero n h = omega arith
from-to_be_bytes (suc w) n h = omega (
  arith,
  from_be_bytes-append 0 (to_be_bytes w (n / 256)) (n % 256 ∷ []),
  from-to_be_bytes w (n / 256) (omega (arith, h)),
)

-- A location of two 64-bit numbers is read back as it was written.
pub encode-decode_location :
    (offset size : ℕ)
    → offset < 2 ^ 64
    → size < 2 ^ 64
    → decode_location (encode_location offset size) ≡ ok (offset, size)
unfolding decode_location encode_location
encode-decode_location offset size ho hs =
    let front =
      take_front 8 (to_be_bytes 8 offset) (to_be_bytes 8 size) (length-to_be_bytes 8 offset) in
    let back =
      drop_front 8 (to_be_bytes 8 offset) (to_be_bytes 8 size) (length-to_be_bytes 8 offset) in
    let all : (length (to_be_bytes 8 offset ++ to_be_bytes 8 size) == 16) ≡ true =
      (nat_beq_iff _ 16).1 (
        omega (
          arith,
          length-append (to_be_bytes 8 offset) (to_be_bytes 8 size),
          length-to_be_bytes 8 offset,
          length-to_be_bytes 8 size,
        )) in
    rw
      (
        all,
        front,
        back,
        from-to_be_bytes 8 offset (omega (arith, ho)),
        from-to_be_bytes 8 size (omega (arith, hs)),
      )
      refl
