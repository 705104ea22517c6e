-- ===== src/Fallible/Checks.antt =====
-- The `?` operator in functions that change no state.
use embernet.Prelude.{◌≡◌, refl}
use embernet.Fallible.{Result, ok, err}

module _ {ℓ κ} {A : Type ℓ} {B : Type κ} where
  -- `Result::and_then`.
  abbrev pub and_then : (A → Result B) → Result A → Result B
  and_then f (err e) = err e
  and_then f (ok a) = f a

  infixl 5 ◌>>=◌ ◌>>◌
  abbrev pub ◌>>=◌ : Result A → (A → Result B) → Result B
  m >>= f = and_then f m

  abbrev pub ◌>>◌ : Result A → Result B → Result B
  m >> next = and_then (λ _. next) m

  -- What a check that lets the rest go on has found.
  pub bind-eq_ok :
      {b : B} (m : Result A) (f : A → Result B)
      → (m >>= f) ≡ ok b
      → (a : A) × (m ≡ ok a) × (f a ≡ ok b)
  bind-eq_ok (err e) f h = cc
  bind-eq_ok (ok a) f h = (a, refl, h)
