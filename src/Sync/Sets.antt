-- ===== src/Sync/Sets.antt =====
-- `HashSet` and `HashMap` as src/sync.rs uses them: lists without duplicates. The order in which a set
-- is gone through is a parameter where it shows.
use embernet.Prelude.{
  ℕ, Bool, true, false, ◌&&◌, ◌||◌, not, List, [], ◌∷◌, ◌++◌, ◌+◌, Eq, ◌==◌, nat_eq, str_eq,
  contains, contains-remove_all, remove_all, length, leb, if◌then◌else◌, ◌≡◌, refl, subst, arith,
  inl, inr, Bool-cases,
}

-- `Vec<u64>::sort_unstable`.
unfoldable pub insert_index : ℕ → List ℕ → List ℕ
insert_index i [] = i ∷ []
insert_index i (j ∷ l) = if leb i j then i ∷ j ∷ l else j ∷ insert_index i l

unfoldable pub sort_indices : List ℕ → List ℕ
unfolding insert_index
sort_indices [] = []
sort_indices (i ∷ l) = insert_index i (sort_indices l)

module _ {A : Type 0} ⦃e : Eq A⦄ where
  -- Collecting into a set.
  unfoldable pub distinct : List A → List A
  distinct [] = []
  distinct (x ∷ xs) = let rest = distinct xs in if contains x xs then rest else x ∷ rest

  -- `HashSet::difference`.
  unfoldable pub difference : List A → List A → List A
  difference [] ys = []
  difference (x ∷ xs) ys = let rest = difference xs ys in if contains x ys then rest else x ∷ rest

  abbrev pub subset : List A → List A → Bool
  subset [] ys = true
  subset (x ∷ xs) ys = contains x ys && subset xs ys

  abbrev pub IsDistinct : List A → Type 0
  IsDistinct [] = Unit
  IsDistinct (x ∷ xs) = (contains x xs ≡ false) × IsDistinct xs

  pub contains-distinct : (a : A) (xs : List A) → contains a (distinct xs) ≡ contains a xs
  unfolding contains distinct
  contains-distinct a [] = refl
  contains-distinct a (x ∷ xs) = ground (arith, contains-distinct a xs, e.beq_iff x a)

  pub distinct-IsDistinct : (xs : List A) → IsDistinct (distinct xs)
  unfolding distinct
  distinct-IsDistinct [] = tt
  distinct-IsDistinct (x ∷ xs) = ground (arith, contains-distinct x xs, distinct-IsDistinct xs)

  pub contains-difference :
      (a : A) (xs ys : List A)
      → contains a (difference xs ys) ≡ (contains a xs && not (contains a ys))
  unfolding contains difference
  contains-difference a [] ys = refl
  contains-difference a (x ∷ xs) ys = ground (arith, contains-difference a xs ys, e.beq_iff x a)

  pub contains-append :
      (a : A) (xs ys : List A) → contains a (xs ++ ys) ≡ (contains a xs || contains a ys)
  unfolding contains
  contains-append a [] ys = refl
  contains-append a (x ∷ xs) ys = ground (arith, contains-append a xs ys)

  remove_all-idle : (a : A) (xs : List A) → contains a xs ≡ false → remove_all a xs ≡ xs
  unfolding contains remove_all
  remove_all-idle a [] h = refl
  remove_all-idle a (x ∷ xs) h = ground (arith, remove_all-idle a xs)

  -- Taking a member out of a set.
  pub length-remove_all :
      (a : A) (xs : List A)
      → IsDistinct xs
      → contains a xs ≡ true
      → length (remove_all a xs) + 1 ≡ length xs
  unfolding contains remove_all
  length-remove_all a [] d h = cc
  length-remove_all a (x ∷ xs) d h = elim (Bool-cases (x == a)) [
    | inl b ↦
        let absent = subst (λ y. contains y xs ≡ false) ((e.beq_iff x a).0 b) d.0 in
        rw (b, remove_all-idle a xs absent) (omega arith)
    | inr b ↦ rw b (omega (arith, length-remove_all a xs d.1 (rw b at h)))
  ]

  pub remove_all-IsDistinct : (a : A) (xs : List A) → IsDistinct xs → IsDistinct (remove_all a xs)
  unfolding remove_all
  remove_all-IsDistinct a [] d = tt
  remove_all-IsDistinct a (x ∷ xs) (fresh, d) =
      ground (arith, contains-remove_all a x xs, remove_all-IsDistinct a xs d)
