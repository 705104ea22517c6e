-- ===== src/Ndjson.antt =====
-- Newline-delimited JSON, as src/store.rs keeps its histories: `serde_json` is a parameter, and
-- `lines`, `trim` and the loop over the lines are written out. A line of other than ASCII white
-- space counts as text.
pub mod Laws
use embernet.Prelude.{
  ℕ, Bytes, Bool, true, false, ◌&&◌, ◌||◌, List, [], ◌∷◌, ◌++◌, map, Option, none, some, ◌==◌,
  nat_eq, leb, ◌≡◌, if◌then◌else◌, All, ◌≢◌, last,
}
use embernet.Fallible.{Result, ok, err, context, invalid_json}
use embernet.Fallible.Checks.{◌>>=◌}
use embernet.Util.{push_byte}

-- `serde_json` on a type: `to_vec` (or `to_vec_pretty`) and `from_slice`.
pub record Json (A : Type 0) : Type 0 where
  pub to_vec : A → Bytes
  pub from_slice : Bytes → Option A

-- A value is read back, and a structure written by `to_vec` is one line in braces.
pub record JsonLaws {A : Type 0} (j : Json A) : Type 0 where
  pub read_back : (a : A) → j.from_slice (j.to_vec a) ≡ some a

pub record LineLaws {A : Type 0} (j : Json A) : Type 0 where
  pub read_back : (a : A) → j.from_slice (j.to_vec a) ≡ some a
  pub one_line : (a : A) → All (λ c. c ≢ b'\n') (j.to_vec a)
  pub in_braces : (a : A) → (body : Bytes) × (j.to_vec a ≡ b'{' ∷ body ++ b'}' ∷ [])

-- `BufRead::lines` and `str::lines`, before the carriage returns are taken off.
unfoldable pub lines : Bytes → List Bytes
lines [] = []
lines (c ∷ s) = let rest = lines s in if c == b'\n' then [] ∷ rest else push_byte c rest

unfoldable pub strip_return : Bytes → Bytes
strip_return [] = []
strip_return (c ∷ []) = if c == b'\r' then [] else c ∷ []
strip_return (c ∷ d ∷ s) = c ∷ strip_return (d ∷ s)

abbrev pub is_white : ℕ → Bool
is_white c = c == b' ' || (leb 9 c && leb c 13)

-- `line.trim().is_empty()`.
unfoldable pub is_blank : Bytes → Bool
is_blank [] = true
is_blank (c ∷ s) = is_white c && is_blank s

module _ {A : Type 0} ⦃j : Json A⦄ where
  unfoldable pub parse_lines : List Bytes → Result (List A)
  parse_lines [] = ok []
  parse_lines (l ∷ ls) =
      let rest = parse_lines ls in
      if is_blank l
      then rest
      else do a ← context (j.from_slice l) invalid_json; more ← rest; ok (a ∷ more)

  unfoldable pub read_ndjson : Bytes → Result (List A)
  read_ndjson bytes = parse_lines (map strip_return (lines bytes))

  -- One `to_writer` and one newline for each value.
  unfoldable pub encode_lines : List A → Bytes
  encode_lines [] = []
  encode_lines (a ∷ more) = j.to_vec a ++ b'\n' ∷ encode_lines more
