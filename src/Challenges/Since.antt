-- ===== src/Challenges/Since.antt =====
-- What the requests to src/server.rs leave of a nonce that is not in its table: it stays out while no
-- challenge is issued for it.
use embernet.Prelude.{
  ℕ, Bytes, Str, codes, [], ◌∷◌, none, length, leb, str_eq, str_beq_iff, ◌≡◌, ◌≢◌, refl, arith,
  Bool-cases, inl, inr,
}
use embernet.Fallible.{ok, Result-cases}
use embernet.Crates.{Crates}
use embernet.Challenges.{
  Active, expiry_of, put, discard, retain_active, AppState, AuthChallenge, Headers, read_claim,
  make_auth_challenge, challenge, check_claim, redeem, has_none, discovery_requester,
}

put-absent :
    (n nonce : Str) (e : ℕ) (t : Active)
    → n ≢ nonce
    → expiry_of nonce t ≡ none
    → expiry_of nonce (put n e t) ≡ none
unfolding expiry_of put
put-absent n nonce e [] ne h = ground (arith, str_beq_iff n nonce)
put-absent n nonce e ((m, f) ∷ t) ne h =
    ground (arith, put-absent n nonce e t ne, str_beq_iff n nonce, str_beq_iff m n)

discard-absent :
    (n nonce : Str) (t : Active) → expiry_of nonce t ≡ none → expiry_of nonce (discard n t) ≡ none
unfolding expiry_of discard
discard-absent n nonce [] h = refl
discard-absent n nonce ((m, f) ∷ t) h = ground (arith, discard-absent n nonce t)

retain_active-absent :
    (now : ℕ) (nonce : Str) (t : Active)
    → expiry_of nonce t ≡ none
    → expiry_of nonce (retain_active now t) ≡ none
unfolding expiry_of retain_active
retain_active-absent now nonce [] h = refl
retain_active-absent now nonce ((m, f) ∷ t) h = ground (arith, retain_active-absent now nonce t)

module _ ⦃k : Crates⦄ where
  -- The requests that follow on a state, one after the other, whether they succeed or fail, where no
  -- challenge is issued for the nonce.
  pub data Since (nonce : Str) (s : AppState) : AppState → Type 0 where
    at_once : Since nonce s s
    challenged :
        (t : AppState) (raw : Bytes) (made_at now : ℕ)
        → ((c : AuthChallenge) → (challenge raw made_at now t).0 ≡ ok c → c.nonce ≢ nonce)
        → Since nonce s t
        → Since nonce s (challenge raw made_at now t).1
    answered :
        (t : AppState) (h : Headers) (now now' : ℕ)
        → Since nonce s t
        → Since nonce s (discovery_requester h now now' t).1

  abbrev pub IsGone : Str → AppState → Type 0
  IsGone nonce s = expiry_of nonce s.discovery_challenges ≡ none

  challenge-IsGone :
      (nonce : Str) (t : AppState) (raw : Bytes) (made_at now : ℕ)
      → ((c : AuthChallenge) → (challenge raw made_at now t).0 ≡ ok c → c.nonce ≢ nonce)
      → IsGone nonce t
      → IsGone nonce (challenge raw made_at now t).1
  unfolding challenge
  challenge-IsGone nonce t raw made_at now fresh gone =
      let kept = retain_active-absent now nonce t.discovery_challenges gone in
      elim (Result-cases (make_auth_challenge t.identity (codes "/status") raw made_at)) [
        | inr (e, h) ↦ rw h gone
        | inl (c, h) ↦
            elim (Bool-cases (leb 10000 (length (retain_active now t.discovery_challenges)))) [
              | inl b ↦ rw (h, b) kept
              | inr b ↦
                  rw (h, b) (put-absent c.nonce nonce c.expires _ (fresh c (rw (h, b) refl)) kept)
            ]
      ]

  answer-IsGone :
      (nonce : Str) (t : AppState) (h : Headers) (now now' : ℕ)
      → IsGone nonce t
      → IsGone nonce (discovery_requester h now now' t).1
  unfolding discovery_requester redeem
  answer-IsGone nonce t h now now' gone = elim (Bool-cases (has_none h)) [
    | inl b ↦ rw b gone
    | inr b ↦ elim (Result-cases (read_claim h)) [
      | inr (e, r) ↦ rw (b, r) gone
      | inl (c, r) ↦ elim (Result-cases (check_claim c now now' t)) [
        | inr (e, f) ↦ rw (b, r, f) gone
        | inl (_, f) ↦ rw (b, r, f) (discard-absent c.nonce nonce t.discovery_challenges gone)
      ]
    ]
  ]

  pub Since-IsGone :
      (nonce : Str) (s t : AppState) → Since nonce s t → IsGone nonce s → IsGone nonce t
  Since-IsGone nonce s _ at_once gone = gone
  Since-IsGone nonce s _ (challenged t raw made_at now fresh r) gone =
      challenge-IsGone nonce t raw made_at now fresh (Since-IsGone nonce s t r gone)
  Since-IsGone nonce s _ (answered t h now now' r) gone =
      answer-IsGone nonce t h now now' (Since-IsGone nonce s t r gone)
