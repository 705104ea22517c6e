-- ===== src/Ndjson/Laws.antt =====
-- A history that ends in a newline is read back with what is appended to it.
use mathlib.Core.List.{map-append}
use embernet.Prelude.{
  ℕ, Bytes, false, List, [], ◌∷◌, ◌++◌, map, ◌==◌, nat_eq, ◌≡◌, refl, ap, All, ◌≢◌, arith,
  Bool-cases, inl, inr, nat_beq_iff, ◌∙◌,
}
use embernet.Fallible.{ok}
use embernet.Fallible.Checks.{◌>>=◌}
use embernet.Util.{push_byte}
use embernet.Util.Paths.{push_byte-ne}
use embernet.Ndjson.{
  Json, LineLaws, lines, strip_return, is_blank, parse_lines, read_ndjson, encode_lines,
}

-- The text is empty or ends in a newline.
abbrev pub EndsClean : Bytes → Type 0
EndsClean [] = Unit
EndsClean (c ∷ []) = c ≡ b'\n'
EndsClean (c ∷ d ∷ s) = EndsClean (d ∷ s)

push_byte-append :
    (c : ℕ) (xs ys : List Bytes) → xs ≢ [] → push_byte c (xs ++ ys) ≡ push_byte c xs ++ ys
unfolding push_byte
push_byte-append c [] ys h = absurd (h refl)
push_byte-append c (x ∷ xs) ys h = refl

lines-ne : (c : ℕ) (s : Bytes) → lines (c ∷ s) ≢ []
unfolding lines push_byte
lines-ne c s = elim (Bool-cases (c == b'\n')) [
  | inl e ↦ rw e (λ p. cc)
  | inr e ↦ rw e (push_byte-ne c (lines s))
]

pub lines-append : (a b : Bytes) → EndsClean a → lines (a ++ b) ≡ lines a ++ lines b
unfolding lines
lines-append [] b h = refl
lines-append (c ∷ []) b h = rw h refl
lines-append (c ∷ d ∷ s) b h = elim (Bool-cases (c == b'\n')) [
  | inl e ↦ rw e (ap (◌∷◌ []) (lines-append (d ∷ s) b h))
  | inr e ↦ rw e (
      ap (push_byte c) (lines-append (d ∷ s) b h)
      ∙ push_byte-append c (lines (d ∷ s)) (lines b) (lines-ne d s))
]

lines-one : (l b : Bytes) → All (λ c. c ≢ b'\n') l → lines (l ++ b'\n' ∷ b) ≡ l ∷ lines b
unfolding lines
lines-one [] b h = refl
lines-one (c ∷ l) b h = elim (Bool-cases (c == b'\n')) [
  | inl e ↦ absurd (h.0 ((nat_beq_iff c b'\n').0 e))
  | inr e ↦ rw (e, lines-one l b h.1) (unfold push_byte in refl)
]

strip_return_brace : (s : Bytes) → strip_return (s ++ b'}' ∷ []) ≡ s ++ b'}' ∷ []
unfolding strip_return
strip_return_brace [] = refl
strip_return_brace (c ∷ []) = refl
strip_return_brace (c ∷ d ∷ s) = ap (◌∷◌ c) (strip_return_brace (d ∷ s))

pub EndsClean-append : (a b : Bytes) → EndsClean a → EndsClean b → EndsClean (a ++ b)
EndsClean-append [] b ha hb = hb
EndsClean-append (c ∷ []) [] ha hb = ha
EndsClean-append (c ∷ []) (x ∷ b) ha hb = hb
EndsClean-append (c ∷ d ∷ s) b ha hb = EndsClean-append (d ∷ s) b ha hb

EndsClean-line : (l b : Bytes) → EndsClean b → EndsClean (l ++ b'\n' ∷ b)
EndsClean-line [] [] h = refl
EndsClean-line [] (c ∷ b) h = h
EndsClean-line (x ∷ []) b h = EndsClean-line [] b h
EndsClean-line (x ∷ y ∷ l) b h = EndsClean-line (y ∷ l) b h

module _ {A : Type 0} ⦃j : Json A⦄ where
  pub EndsClean-encode : (xs : List A) → EndsClean (encode_lines xs)
  unfolding encode_lines
  EndsClean-encode [] = tt
  EndsClean-encode (x ∷ xs) = EndsClean-line (j.to_vec x) (encode_lines xs) (EndsClean-encode xs)

  parse-append :
      (xs ys : List Bytes) (bs : List A)
      → parse_lines ys ≡ ok bs
      → parse_lines (xs ++ ys) ≡ (parse_lines xs >>= λ (l : List A). ok (l ++ bs))
  unfolding parse_lines
  parse-append [] ys bs h = h
  parse-append (x ∷ xs) ys bs h = ground (arith, parse-append xs ys bs h)

  module _ (laws : LineLaws j) where
    written_line :
        (a : A) → (strip_return (j.to_vec a) ≡ j.to_vec a) × (is_blank (j.to_vec a) ≡ false)
    unfolding is_blank
    written_line a =
        let (body, e) = laws.in_braces a in (rw e (strip_return_brace (b'{' ∷ body)), rw e refl)

    pub read-encode : (xs : List A) → read_ndjson (encode_lines xs) ≡ ok xs
    unfolding read_ndjson encode_lines parse_lines lines
    read-encode [] = refl
    read-encode (x ∷ more) =
        rw (lines-one (j.to_vec x) (encode_lines more) (laws.one_line x))
          (rw ((written_line x).0, (written_line x).1, laws.read_back x, read-encode more))

    -- What is appended to a clean history is read behind what was there.
    pub read-append :
        (bytes : Bytes) (xs more : List A)
        → EndsClean bytes
        → read_ndjson bytes ≡ ok xs
        → read_ndjson (bytes ++ encode_lines more) ≡ ok (xs ++ more)
    unfolding read_ndjson
    read-append bytes xs more clean h =
        rw (lines-append bytes (encode_lines more) clean, map-append)
          (parse-append (map strip_return (lines bytes)) _ more (read-encode more) ∙ rw h)
