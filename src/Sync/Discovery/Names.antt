-- ===== src/Sync/Discovery/Names.antt =====
-- The order in which `discover_peer_channels` of src/sync.rs gives the names, and which of them stay.
use embernet.Prelude.{
  Str, true, false, ◌&&◌, List, [], ◌∷◌, ◌==◌, str_eq, str_beq_iff, str_le, sort, insert_sorted,
  contains, ◌≡◌, refl, subst, Bool-cases, inl, inr, arith,
}
use embernet.Util.{valid_channel}
use embernet.Sync.Discovery.{dedup, keep_valid}

str_le-total : (s t : Str) → str_le s t ≡ false → str_le t s ≡ true
unfolding str_le
str_le-total [] t h = cc
str_le-total (a ∷ s) [] h = refl
str_le-total (a ∷ s) (b ∷ t) h = ground (arith, str_le-total s t)

abbrev AtLeast : Str → List Str → Type 0
AtLeast x [] = Unit
AtLeast x (y ∷ l) = str_le x y ≡ true

-- The names come in order, where equal ones may follow each other.
abbrev IsSorted : List Str → Type 0
IsSorted [] = Unit
IsSorted (x ∷ l) = AtLeast x l × IsSorted l

abbrev Below : Str → List Str → Type 0
Below x [] = Unit
Below x (y ∷ l) = (str_le x y ≡ true) × ((x == y) ≡ false)

-- The names come in order, each once.
abbrev pub IsAscending : List Str → Type 0
IsAscending [] = Unit
IsAscending (x ∷ l) = Below x l × IsAscending l

insert_sorted-AtLeast :
    (x s : Str) (l : List Str) → str_le x s ≡ true → AtLeast x l → AtLeast x (insert_sorted s l)
unfolding insert_sorted
insert_sorted-AtLeast x s [] le h = le
insert_sorted-AtLeast x s (y ∷ l) le h = elim (Bool-cases (str_le s y)) [
  | inl b ↦ rw b le
  | inr b ↦ rw b h
]

insert_sorted-IsSorted : (s : Str) (l : List Str) → IsSorted l → IsSorted (insert_sorted s l)
unfolding insert_sorted
insert_sorted-IsSorted s [] h = (tt, tt)
insert_sorted-IsSorted s (x ∷ l) (first, later) =
    let rest = insert_sorted-IsSorted s l later in
    elim (Bool-cases (str_le s x)) [
      | inl b ↦ rw b (b, (first, later))
      | inr b ↦ rw b (insert_sorted-AtLeast x s l (str_le-total s x b) first, rest)
    ]

pub sort-IsSorted : (l : List Str) → IsSorted (sort l)
unfolding sort
sort-IsSorted [] = tt
sort-IsSorted (x ∷ l) = insert_sorted-IsSorted x (sort l) (sort-IsSorted l)

dedup-Below :
    (x y : Str) (l : List Str) → str_le x y ≡ true → (x == y) ≡ false → Below x (dedup (y ∷ l))
unfolding dedup
dedup-Below x y [] le ne = (le, ne)
dedup-Below x y (z ∷ l) le ne =
    let further = dedup-Below x z l in
    elim (Bool-cases (y == z)) [
      | inl b ↦
          let e = (str_beq_iff y z).0 b in
          rw b (further (subst (λ w. str_le x w ≡ true) e le) (subst (λ w. (x == w) ≡ false) e ne))
      | inr b ↦ rw b (le, ne)
    ]

dedup-IsAscending : (x : Str) (l : List Str) → IsSorted (x ∷ l) → IsAscending (dedup (x ∷ l))
unfolding dedup
dedup-IsAscending x [] h = (tt, tt)
dedup-IsAscending x (y ∷ l) (le, later) =
    let rest = dedup-IsAscending y l later in
    elim (Bool-cases (x == y)) [ inl b ↦ rw b rest | inr b ↦ rw b (dedup-Below x y l le b, rest) ]

pub names-IsAscending : (l : List Str) → IsSorted l → IsAscending (dedup l)
unfolding dedup
names-IsAscending [] h = tt
names-IsAscending (x ∷ l) h = dedup-IsAscending x l h

pub contains-dedup : (a : Str) (l : List Str) → contains a (dedup l) ≡ contains a l
unfolding contains dedup
contains-dedup a [] = refl
contains-dedup a (x ∷ []) = refl
contains-dedup a (x ∷ y ∷ l) = ground (arith, contains-dedup a (y ∷ l), str_beq_iff x y)

pub contains-keep_valid :
    (a : Str) (l : List Str) → contains a (keep_valid l) ≡ (contains a l && valid_channel a)
unfolding contains keep_valid
contains-keep_valid a [] = refl
contains-keep_valid a (x ∷ l) = ground (arith, contains-keep_valid a l, str_beq_iff x a)
