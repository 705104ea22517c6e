-- ===== src/Moderation/Tombstones.antt =====
-- `ModerationState` of src/store.rs: the tombstoned message ids with their reasons, as the ordered
-- map that `BTreeMap` keeps.
use embernet.Prelude.{
  Str, List, [], ◌∷◌, Option, none, some, ◌==◌, str_eq, str_le, str_beq_iff, if◌then◌else◌, ◌≡◌,
  refl, arith,
}

pub record ModerationState : Type 0 where
  pub tombstoned : List (Str × Option Str)

abbrev pub no_tombstones : ModerationState
no_tombstones = record { tombstoned = [] }

unfoldable pub insert : Str → Option Str → List (Str × Option Str) → List (Str × Option Str)
insert id reason [] = (id, reason) ∷ []
insert id reason ((x, r) ∷ m) =
    let rest = insert id reason m in
    if x == id
    then (id, reason) ∷ m
    else (if str_le x id then (x, r) ∷ rest else (id, reason) ∷ (x, r) ∷ m)

unfoldable pub remove : Str → List (Str × Option Str) → List (Str × Option Str)
remove id [] = []
remove id ((x, r) ∷ m) = let rest = remove id m in if x == id then rest else (x, r) ∷ rest

unfoldable pub get : Str → List (Str × Option Str) → Option (Option Str)
get id [] = none
get id ((x, r) ∷ m) = if x == id then some r else get id m

pub get-insert :
    (id other : Str) (reason : Option Str) (m : List (Str × Option Str))
    → get other (insert id reason m) ≡ (if id == other then some reason else get other m)
unfolding get insert
get-insert id other reason [] = refl
get-insert id other reason ((x, r) ∷ m) = ground (
  arith,
  str_beq_iff x id,
  str_beq_iff x other,
  str_beq_iff id other,
  get-insert id other reason m,
)

pub get-remove :
    (id other : Str) (m : List (Str × Option Str))
    → get other (remove id m) ≡ (if id == other then none else get other m)
unfolding get remove
get-remove id other [] = ground arith
get-remove id other ((x, r) ∷ m) =
    ground
      (arith, str_beq_iff x id, str_beq_iff x other, str_beq_iff id other, get-remove id other m)
