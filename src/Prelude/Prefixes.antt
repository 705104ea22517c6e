-- ===== src/Prelude/Prefixes.antt =====
-- The test by which the program compares two histories: one is no longer than the other, and the
-- events agree in their ids as far as both go.
use Prim.Native.Nat.{◌≤◌}
use mathlib.Core.Path.{◌≡◌}
use mathlib.Core.Bool.{Bool, true, ◌&&◌}
use mathlib.Core.List.{List, [], ◌∷◌}
use native.Mathlib.Omega.{arith}
use embernet.Prelude.Tests.{◌==◌, leb}
use embernet.Prelude.Text.{Str, str_eq}
use embernet.Prelude.Lists.{length}

module _ {ℓ} {A : Type ℓ} (id_of : A → Str) where
  -- `zip(...).all(|(left, right)| left.id == right.id)`.
  abbrev pub zip_ids_agree : List A → List A → Bool
  zip_ids_agree [] ys = true
  zip_ids_agree (x ∷ xs) [] = true
  zip_ids_agree (x ∷ xs) (y ∷ ys) = (id_of x == id_of y) && zip_ids_agree xs ys

  unfoldable pub is_prefix : List A → List A → Bool
  is_prefix prefix history = leb (length prefix) (length history) && zip_ids_agree prefix history

  pub is_prefix-parts :
      (xs ys : List A)
      → is_prefix xs ys ≡ true
      → (length xs ≤ length ys) × (zip_ids_agree xs ys ≡ true)
  unfolding is_prefix
  is_prefix-parts xs ys h = ground arith

  pub is_prefix_of_parts :
      (xs ys : List A) → length xs ≤ length ys → zip_ids_agree xs ys ≡ true → is_prefix xs ys ≡ true
  unfolding is_prefix
  is_prefix_of_parts xs ys h = ground arith
