-- ===== src/Examples/Codes.antt =====
-- Prefix codes: a small serialiser with the laws that the development asks of `serde_json`.
use mathlib.Core.List.{append_assoc}
use mathlib.Core.Option.{some-injective}
use embernet.Prelude.{
  ℕ, zero, suc, Bytes, List, [], ◌∷◌, ◌++◌, Option, none, some, ◌≡◌, refl, sym, ◌∙◌, ap, All, ◌≢◌,
  arith, ◌⊎◌, inl, inr, ◌==◌, nat_eq, if◌then◌else◌, length, Str, ◌+◌, ◌-◌,
}
use embernet.Crates.{ToVec, VecLaws}
use embernet.Ndjson.{Json, LineLaws}

abbrev Plain : Bytes → Type 0
Plain = All (λ c. c ≢ b'\n')

-- A value is written in front of a rest and read back from there.
pub record Code (A : Type 0) : Type 0 where
  pub put : A → Bytes → Bytes
  pub take_from : Bytes → Option (A × Bytes)
  pub taken : (a : A) (r : Bytes) → take_from (put a r) ≡ some (a, r)
  pub plain : (a : A) (r : Bytes) → Plain r → Plain (put a r)
  pub in_front : (a : A) (r : Bytes) → put a r ≡ put a [] ++ r

abbrev then_take : {A B : Type 0} → Option (A × Bytes) → (A → Bytes → Option B) → Option B
then_take none f = none
then_take (some (a, r)) f = f a r

-- A number is one symbol above the newline.
abbrev put_nat : ℕ → Bytes → Bytes
put_nat n r = (n + 11) ∷ r

abbrev take_nat : Bytes → Option (ℕ × Bytes)
take_nat [] = none
take_nat (c ∷ s) = some (c - 11, s)

pub nat_taken : (n : ℕ) (r : Bytes) → take_nat (put_nat n r) ≡ some (n, r)
nat_taken n r = let e : n + 11 - 11 ≡ n = omega arith in rw e

pub nat-Plain : (n : ℕ) (r : Bytes) → Plain r → Plain (put_nat n r)
nat-Plain n r h = (omega arith, h)

pub nat_in_front : (n : ℕ) (r : Bytes) → put_nat n r ≡ put_nat n [] ++ r
nat_in_front n r = refl

abbrev pub nat_code : Code ℕ
nat_code = record {
  put = put_nat;
  take_from = take_nat;
  taken = nat_taken;
  plain = nat-Plain;
  in_front = nat_in_front;
}

module _ {A B : Type 0} (a : Code A) (b : Code B) where
  abbrev put_pair : A × B → Bytes → Bytes
  put_pair (x, y) r = a.put x (b.put y r)

  abbrev take_pair : Bytes → Option ((A × B) × Bytes)
  take_pair s =
      then_take (a.take_from s) (λ x r. then_take (b.take_from r) (λ y r'. some ((x, y), r')))

  pub pair_taken : (p : A × B) (r : Bytes) → take_pair (put_pair p r) ≡ some (p, r)
  pair_taken (x, y) r = rw (a.taken x (b.put y r), b.taken y r)

  pub pair-Plain : (p : A × B) (r : Bytes) → Plain r → Plain (put_pair p r)
  pair-Plain (x, y) r h = a.plain x (b.put y r) (b.plain y r h)

  pub pair_in_front : (p : A × B) (r : Bytes) → put_pair p r ≡ put_pair p [] ++ r
  pair_in_front (x, y) r =
      a.in_front x (b.put y r)
      ∙ ap (◌++◌ (a.put x [])) (b.in_front y r)
      ∙ sym (append_assoc (a.put x []) (b.put y []) r)
      ∙ ap (λ s. s ++ r) (sym (a.in_front x (b.put y [])))

  abbrev pub pair_code : Code (A × B)
  pair_code = record {
    put = put_pair;
    take_from = take_pair;
    taken = pair_taken;
    plain = pair-Plain;
    in_front = pair_in_front;
  }

  abbrev put_sum : A ⊎ B → Bytes → Bytes
  put_sum (inl x) r = b'l' ∷ a.put x r
  put_sum (inr y) r = b'r' ∷ b.put y r

  abbrev take_sum : Bytes → Option ((A ⊎ B) × Bytes)
  take_sum [] = none
  take_sum (c ∷ s) =
      if c == b'l'
      then then_take (a.take_from s) (λ x r. some (inl x, r))
      else then_take (b.take_from s) (λ y r. some (inr y, r))

  pub sum_taken : (p : A ⊎ B) (r : Bytes) → take_sum (put_sum p r) ≡ some (p, r)
  sum_taken (inl x) r = rw (a.taken x r)
  sum_taken (inr y) r = rw (b.taken y r)

  pub sum-Plain : (p : A ⊎ B) (r : Bytes) → Plain r → Plain (put_sum p r)
  sum-Plain (inl x) r h = (omega arith, a.plain x r h)
  sum-Plain (inr y) r h = (omega arith, b.plain y r h)

  pub sum_in_front : (p : A ⊎ B) (r : Bytes) → put_sum p r ≡ put_sum p [] ++ r
  sum_in_front (inl x) r = ap (◌∷◌ b'l') (a.in_front x r)
  sum_in_front (inr y) r = ap (◌∷◌ b'r') (b.in_front y r)

  abbrev pub sum_code : Code (A ⊎ B)
  sum_code = record {
    put = put_sum;
    take_from = take_sum;
    taken = sum_taken;
    plain = sum-Plain;
    in_front = sum_in_front;
  }

-- A code for a type whose values another type represents.
module _ {A B : Type 0} (a : Code A) (from : B → A) (to : A → B)
    (back : (y : B) → to (from y) ≡ y) where
  abbrev take_via : Bytes → Option (B × Bytes)
  take_via s = then_take (a.take_from s) (λ x r. some (to x, r))

  pub via_taken : (y : B) (r : Bytes) → take_via (a.put (from y) r) ≡ some (y, r)
  via_taken y r = rw (a.taken (from y) r, back y)

  abbrev pub via_code : Code B
  via_code = record {
    put = λ y. a.put (from y);
    take_from = take_via;
    taken = via_taken;
    plain = λ y. a.plain (from y);
    in_front = λ y. a.in_front (from y);
  }

abbrev put_unit : Unit {0} → Bytes → Bytes
put_unit u r = r

abbrev pub unit_code : Code (Unit {0})
unit_code = record {
  put = put_unit;
  take_from = λ s. some (tt, s);
  taken = λ u r. refl;
  plain = λ u r h. h;
  in_front = λ u r. refl;
}

module _ {A : Type 0} (a : Code A) where
  abbrev put_all : List A → Bytes → Bytes
  put_all [] r = r
  put_all (x ∷ xs) r = a.put x (put_all xs r)

  abbrev take_many : ℕ → Bytes → Option (List A × Bytes)
  take_many zero s = some ([], s)
  take_many (suc n) s =
      then_take (a.take_from s) (λ x r. then_take (take_many n r) (λ xs r'. some (x ∷ xs, r')))

  -- The length comes first.
  abbrev put_list : List A → Bytes → Bytes
  put_list xs r = put_nat (length xs) (put_all xs r)

  abbrev take_list : Bytes → Option (List A × Bytes)
  take_list s = then_take (take_nat s) take_many

  pub all_taken : (xs : List A) (r : Bytes) → take_many (length xs) (put_all xs r) ≡ some (xs, r)
  all_taken [] r = refl
  all_taken (x ∷ xs) r = rw (a.taken x (put_all xs r), all_taken xs r)

  pub list_taken : (xs : List A) (r : Bytes) → take_list (put_list xs r) ≡ some (xs, r)
  list_taken xs r = let e : length xs + 11 - 11 ≡ length xs = omega arith in rw (e, all_taken xs r)

  pub all-Plain : (xs : List A) (r : Bytes) → Plain r → Plain (put_all xs r)
  all-Plain [] r h = h
  all-Plain (x ∷ xs) r h = a.plain x (put_all xs r) (all-Plain xs r h)

  pub all_in_front : (xs : List A) (r : Bytes) → put_all xs r ≡ put_all xs [] ++ r
  all_in_front [] r = refl
  all_in_front (x ∷ xs) r =
      a.in_front x (put_all xs r)
      ∙ ap (◌++◌ (a.put x [])) (all_in_front xs r)
      ∙ sym (append_assoc (a.put x []) (put_all xs []) r)
      ∙ ap (λ s. s ++ r) (sym (a.in_front x (put_all xs [])))

  pub list_in_front : (xs : List A) (r : Bytes) → put_list xs r ≡ put_list xs [] ++ r
  list_in_front xs r =
      nat_in_front (length xs) (put_all xs r)
      ∙ ap (◌++◌ (put_nat (length xs) [])) (all_in_front xs r)
      ∙ sym (append_assoc (put_nat (length xs) []) (put_all xs []) r)
      ∙ ap (λ s. s ++ r) (sym (nat_in_front (length xs) (put_all xs [])))

  abbrev pub list_code : Code (List A)
  list_code = record {
    put = put_list;
    take_from = take_list;
    taken = list_taken;
    plain = λ xs r h. nat-Plain (length xs) (put_all xs r) (all-Plain xs r h);
    in_front = list_in_front;
  }

  abbrev pub option_from : Option A → Unit {0} ⊎ A
  option_from none = inl tt
  option_from (some x) = inr x

  abbrev pub option_to : Unit {0} ⊎ A → Option A
  option_to (inl u) = none
  option_to (inr x) = some x

  pub option_back : (o : Option A) → option_to (option_from o) ≡ o
  option_back none = refl
  option_back (some x) = refl

  abbrev pub option_code : Code (Option A)
  option_code = via_code (sum_code unit_code a) option_from option_to option_back

abbrev pub str_code : Code Str
str_code = list_code nat_code

module _ {A : Type 0} (a : Code A) where
  abbrev pub code_vec : ToVec A
  code_vec = record { to_vec = λ x. a.put x [] }

  pub code-VecLaws : VecLaws code_vec
  code-VecLaws = record {
    to_vec-injective = λ x y e.
        ap (λ (p : A × Bytes). p.0)
          (some-injective _ _ (sym (a.taken x []) ∙ ap a.take_from e ∙ a.taken y []));
  }

  abbrev read_braced : Bytes → Option A
  read_braced [] = none
  read_braced (c ∷ s) = then_take (a.take_from s) (λ x r. some x)

  abbrev pub code_json : Json A
  code_json = record { to_vec = λ x. b'{' ∷ a.put x (b'}' ∷ []); from_slice = read_braced }

  pub code-LineLaws : LineLaws code_json
  code-LineLaws = record {
    read_back = λ x. rw (a.taken x (b'}' ∷ []));
    one_line = λ x. ((omega arith), a.plain x (b'}' ∷ []) (omega arith, tt));
    in_braces = λ x. (a.put x [], ap (◌∷◌ b'{') (a.in_front x (b'}' ∷ [])));
  }
