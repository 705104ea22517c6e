-- ===== src/Prelude/Text.antt =====
-- Rust strings as the list of their UTF-8 bytes; `String`'s `Ord` is the order of the bytes.
use Prim.Native.Nat.{ℕ, compare, Ordering}
use Prim.Native.Char.{code}
use Prim.Native.String.{String}
use mathlib.Core.Path.{◌≡◌, refl}
use mathlib.Core.Bool.{Bool, true, false}
use mathlib.Core.Logic.{◌↔◌}
use mathlib.Core.List.{List, [], ◌∷◌}
use native.Mathlib.Omega.{arith}
use embernet.Prelude.Tests.{Eq, nat_eq, ◌==◌, list_beq, list_beq_iff, contains, if◌then◌else◌}

abbrev pub Bytes : Type 0
Bytes = List ℕ

abbrev pub Str : Type 0
Str = List ℕ

-- The bytes of an ASCII literal.
abbrev pub codes : String → Str
codes String.[] = []
codes (String.◌∷◌ c s) = code c ∷ codes s

unfoldable pub str_beq : Str → Str → Bool
str_beq = list_beq

pub str_beq_iff : (s t : Str) → (str_beq s t ≡ true) ↔ (s ≡ t)
unfolding str_beq
str_beq_iff = list_beq_iff

instance abbrev pub str_eq : Eq Str
str_eq = record { beq = str_beq; beq_iff = str_beq_iff }

-- The lexicographic order of `String` and of `Vec<u8>`.
unfoldable pub str_le : Str → Str → Bool
str_le [] t = true
str_le (a ∷ s) [] = false
str_le (a ∷ s) (b ∷ t) = elim (compare a b) [
  | Ordering.lt ↦ true
  | Ordering.eq ↦ str_le s t
  | Ordering.gt ↦ false
]

-- `Vec::sort` on strings. Equal strings cannot be told apart, so every sort gives this list.
unfoldable pub insert_sorted : Str → List Str → List Str
insert_sorted s [] = s ∷ []
insert_sorted s (t ∷ l) = if str_le s t then s ∷ t ∷ l else t ∷ insert_sorted s l

unfoldable pub sort : List Str → List Str
unfolding insert_sorted
sort [] = []
sort (s ∷ l) = insert_sorted s (sort l)

contains-insert_sorted :
    (k s : Str) (l : List Str)
    → contains k (insert_sorted s l) ≡ (if s == k then true else contains k l)
unfolding contains insert_sorted
contains-insert_sorted k s [] = refl
contains-insert_sorted k s (t ∷ l) = ground (arith, contains-insert_sorted k s l)

pub contains-sort : (k : Str) (l : List Str) → contains k (sort l) ≡ contains k l
unfolding contains sort
contains-sort k [] = refl
contains-sort k (s ∷ l) = ground (arith, contains-insert_sorted k s (sort l), contains-sort k l)
