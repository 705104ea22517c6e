-- ===== src/Fallible/Actions.antt =====
-- The `?` operator in functions that write files.
use embernet.Prelude.{◌≡◌, refl, ap, sym, subst₂}
use embernet.Fallible.{Error, Result, ok, err, Action, ok-ne-err, ok-injective}

module _ {ℓ} {S A B : Type ℓ} where
  abbrev pub proceed : (A → Action S B) → Result A → S → Result B × S
  proceed f (ok a) s = f a s
  proceed f (err e) s = (err e, s)

  infixl 5 ◌>>=◌ ◌>>◌
  abbrev pub ◌>>=◌ : Action S A → (A → Action S B) → Action S B
  ◌>>=◌ m f s = proceed f (m s).0 (m s).1

  abbrev pub ◌>>◌ : Action S A → Action S B → Action S B
  m >> k = m >>= λ _. k

module _ {ℓ} {S B : Type ℓ} where
  -- From this state, an action that fails has changed nothing.
  abbrev pub IsAtomicAt : Action S B → S → Type ℓ
  IsAtomicAt m s = (e : Error) → (m s).0 ≡ err e → (m s).1 ≡ s

module _ {ℓ} {S A B : Type ℓ} where
  -- A step that only looks has to succeed for the whole to succeed.
  pub proceed-eq_ok :
      (f : A → Action S B) (r : Result A) (s s' : S) (b : B)
      → proceed f r s ≡ (ok b, s')
      → (a : A) × (r ≡ ok a) × (f a s ≡ (ok b, s'))
  proceed-eq_ok f (ok a) s s' b h = (a, refl, h)
  proceed-eq_ok f (err e) s s' b h = absurd (ok-ne-err b e (ap (λ (p : Result B × S). p.0) (sym h)))

  pub proceed-IsAtomicAt :
      (f : A → Action S B) (r : Result A) (s : S)
      → ((a : A) → r ≡ ok a → IsAtomicAt (f a) s)
      → (e : Error) → (proceed f r s).0 ≡ err e
      → (proceed f r s).1 ≡ s
  proceed-IsAtomicAt f (ok a) s keep e h = keep a refl e h
  proceed-IsAtomicAt f (err x) s keep e h = refl

-- What holds of a result and a state holds of those that an action is known to return.
pub returned {ℓ κ} :
    {S A : Type ℓ} (P : S → A → Type κ) {a b : A} {s t : S}
    → ◌≡◌ {A = Result A × S} (ok a, s) (ok b, t)
    → P s a
    → P t b
returned {A = A} P {a} {b} e h = subst₂ P (ap (λ r. r.1) e) (ok-injective a b (ap (λ r. r.0) e)) h

module _ {ℓ} {S A B : Type ℓ} where
  -- The first step of a sequence that succeeds.
  pub step-eq_ok :
      (m : Action S A) (f : A → Action S B) (s t : S) (b : B)
      → (m >>= f) s ≡ (ok b, t)
      → (a : A) × ((u : S) × (m s ≡ (ok a, u)) × (f a u ≡ (ok b, t)))
  step-eq_ok m f s t b h =
      let (a, e, rest) = proceed-eq_ok f (m s).0 (m s).1 t b h in
      (a, ((m s).1, ap (λ (r : Result A). (r, (m s).1)) e, rest))

module _ {ℓ κ} {S A B : Type ℓ} (P : S → Type κ) where
  -- What holds where a step fails, and after the rest where it succeeds, holds afterwards.
  pub proceed-either :
      (f : A → Action S B) (r : Result A) (s : S)
      → ((e : Error) → r ≡ err e → P s)
      → ((a : A) → r ≡ ok a → P (f a s).1)
      → P (proceed f r s).1
  proceed-either f (ok a) s failed done = done a refl
  proceed-either f (err e) s failed done = failed e refl
