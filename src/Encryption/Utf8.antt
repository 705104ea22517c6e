-- ===== src/Encryption/Utf8.antt =====
-- `String::from_utf8`: which bytes are UTF-8. After the first byte of a character come up to three
-- more, of which the first lies in a range that the first byte gives.
use embernet.Prelude.{
  ℕ, zero, suc, Bytes, Bool, true, false, ◌&&◌, [], ◌∷◌, leb, ltb, if◌then◌else◌,
}
use embernet.Prelude.{◌≡◌, refl, All, arith, ◌<◌}

-- How many bytes follow, and the range of the next one.
pub record Pending : Type 0 where
  pub count : ℕ
  pub low : ℕ
  pub high : ℕ

abbrev pub after : ℕ → ℕ → ℕ → Pending
after n l h = record { count = n; low = l; high = h }

-- What the first byte of a character asks for.
unfoldable pub after_lead : ℕ → Pending
after_lead b =
    if ltb b 0xe0
    then after 1 0x80 0xbf
    else if ltb b 0xe1
    then after 2 0xa0 0xbf
    else if ltb b 0xed
    then after 2 0x80 0xbf
    else if ltb b 0xee
    then after 2 0x80 0x9f
    else if ltb b 0xf0
    then after 2 0x80 0xbf
    else if ltb b 0xf1
    then after 3 0x90 0xbf
    else if ltb b 0xf4
    then after 3 0x80 0xbf
    else after 3 0x80 0x8f

abbrev pub is_lead : ℕ → Bool
is_lead b = leb 0xc2 b && leb b 0xf4

unfoldable pub utf8_from : ℕ → ℕ → ℕ → Bytes → Bool
utf8_from zero low high [] = true
utf8_from (suc n) low high [] = false
utf8_from zero low high (b ∷ s) =
    let p = after_lead b in
    let ascii = utf8_from zero 0x80 0xbf s in
    let longer = utf8_from p.count p.low p.high s in
    if ltb b 0x80 then ascii else is_lead b && longer
utf8_from (suc n) low high (b ∷ s) = leb low b && leb b high && utf8_from n 0x80 0xbf s

unfoldable pub is_utf8 : Bytes → Bool
is_utf8 s = utf8_from 0 0x80 0xbf s

-- ASCII text is UTF-8.
pub ascii-is_utf8 : (s : Bytes) → All (λ b. b < 128) s → is_utf8 s ≡ true
unfolding is_utf8 utf8_from
ascii-is_utf8 [] h = refl
ascii-is_utf8 (b ∷ s) h = ground (arith, ascii-is_utf8 s h.1)
