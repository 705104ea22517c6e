-- ===== src/Challenges/Once.antt =====
-- A discovery challenge of src/server.rs is good for one request, and the table stays bounded.
use embernet.Prelude.{
  ℕ, Str, false, not, [], ◌∷◌, ◌≤◌, ◌+◌, Option, none, some, length, str_eq, ◌≡◌, ◌≢◌, refl, sym,
  ap, ◌∙◌, arith, Bool-cases, inl, inr,
}
use mathlib.Core.Option.{some-injective}
use embernet.Fallible.{
  Result, ok, ensure, context, stale_signature, unknown_challenge, expired_challenge,
  true_of_ensure, ok-injective,
}
use embernet.Fallible.Actions.{proceed-eq_ok}
use embernet.Fallible.Checks.{bind-eq_ok}
use embernet.Crates.{Crates}
use embernet.I64.{lt_i64, is_stale}
use embernet.Proto.{verify_bytes}
use embernet.Challenges.{
  Active, expiry_of, put, discard, retain_active, AppState, Headers, Claim, read_claim,
  discovery_auth_payload, check_claim, redeem, has_none, discovery_requester,
}
use embernet.Challenges.Since.{Since, Since-IsGone}

expiry_of-discard : (n : Str) (t : Active) → expiry_of n (discard n t) ≡ none
unfolding expiry_of discard
expiry_of-discard n [] = refl
expiry_of-discard n ((x, e) ∷ t) = ground (arith, expiry_of-discard n t)

pub length-discard : (n : Str) (t : Active) → length (discard n t) ≤ length t
unfolding discard
length-discard n [] = omega arith
length-discard n ((x, e) ∷ t) = ground (arith, length-discard n t)

pub length-retain_active : (now : ℕ) (t : Active) → length (retain_active now t) ≤ length t
unfolding retain_active
length-retain_active now [] = omega arith
length-retain_active now ((x, e) ∷ t) = ground (arith, length-retain_active now t)

pub length-put : (n : Str) (e : ℕ) (t : Active) → length (put n e t) ≤ length t + 1
unfolding put
length-put n e [] = omega arith
length-put n e ((x, f) ∷ t) = ground (arith, length-put n e t)

module _ ⦃k : Crates⦄ where
  -- What a claim that is accepted has shown.
  pub record IsProven (c : Claim) (now now' : ℕ) (s : AppState) : Type 0 where
    pub expires : ℕ
    pub fresh : is_stale now c.timestamp ≡ false
    pub issued : expiry_of c.nonce s.discovery_challenges ≡ some expires
    pub unexpired : lt_i64 expires now' ≡ false
    pub signed :
        verify_bytes c.key c.signature
          (discovery_auth_payload c.timestamp c.nonce s.identity.public_key)
        ≡ ok tt

  check_claim-IsProven :
      (c : Claim) (now now' : ℕ) (s : AppState)
      → check_claim c now now' s ≡ ok tt
      → IsProven c now now' s
  unfolding check_claim
  check_claim-IsProven c now now' s h =
      let (_, fresh, h₁) =
        bind-eq_ok (ensure (not (is_stale now c.timestamp)) stale_signature) _ h in
      let (expires, issued, h₂) =
        bind-eq_ok (context (expiry_of c.nonce s.discovery_challenges) unknown_challenge) _ h₁ in
      let (_, unexpired, signed) =
        bind-eq_ok (ensure (not (lt_i64 expires now')) expired_challenge) _ h₂ in
      record {
        expires = expires;
        fresh =
            ground (arith, true_of_ensure (not (is_stale now c.timestamp)) stale_signature fresh);
        issued = ground arith;
        unexpired =
            ground (arith, true_of_ensure (not (lt_i64 expires now')) expired_challenge unexpired);
        signed = signed;
      }

  -- A request that is answered for an identity: what it claimed, and the table after it.
  pub record IsAnswered (h : Headers) (now now' : ℕ) (key : Str) (s t : AppState) : Type 0 where
    pub claim : Claim
    pub claimed : read_claim h ≡ ok claim
    pub same_key : key ≡ claim.key
    pub proven : IsProven claim now now' s
    pub used_up : t ≡ record s { discovery_challenges = discard claim.nonce s.discovery_challenges }

  -- A request is answered for an identity only where that identity has signed, over a challenge that
  -- is in the table and has not expired and over a time that is not stale, for this server; and the
  -- challenge is then taken out of the table.
  pub discovery_requester-IsAnswered :
      (h : Headers) (now now' : ℕ) (key : Str) (s t : AppState)
      → discovery_requester h now now' s ≡ (ok (some key), t)
      → IsAnswered h now now' key s t
  unfolding discovery_requester redeem
  discovery_requester-IsAnswered h now now' key s t e = elim (Bool-cases (has_none h)) [
    | inl b ↦
        absurd
          (cc (ok-injective _ _ (ap (λ (x : Result (Option Str) × AppState). x.0) (rw b at e))))
    | inr b ↦
        let (c, claimed, e₁) = proceed-eq_ok _ (read_claim h) s t (some key) (rw b at e) in
        let (_, held, e₂) = proceed-eq_ok _ (check_claim c now now' s) s t (some key) e₁ in
        record {
          claim = c;
          claimed = claimed;
          same_key = sym (
              some-injective c.key key
                (ok-injective _ _ (ap (λ (x : Result (Option Str) × AppState). x.0) e₂)));
          proven = check_claim-IsProven c now now' s held;
          used_up = ap (λ (x : Result (Option Str) × AppState). x.1) (sym e₂);
        }
  ]

  -- A challenge answers one request: after it has been redeemed, and after any further requests of
  -- which none issues a challenge for the same nonce, no request with that nonce is answered for an
  -- identity, whoever makes it and whenever.
  pub discovery_requester-once :
      (h later : Headers) (now now' after after' : ℕ) (key other : Str) (s t t' u : AppState)
      (c c' : Claim)
      → read_claim h ≡ ok c
      → read_claim later ≡ ok c'
      → c'.nonce ≡ c.nonce
      → discovery_requester h now now' s ≡ (ok (some key), t)
      → Since c.nonce t t'
      → discovery_requester later after after' t' ≢ (ok (some other), u)
  discovery_requester-once h later now now' after after' key other s t t' u c c' r r' same e since
        e' =
      let a = discovery_requester-IsAnswered h now now' key s t e in
      let b = discovery_requester-IsAnswered later after after' other t' u e' in
      let nonce : a.claim.nonce ≡ c.nonce =
        ap (λ (x : Claim). x.nonce) (ok-injective a.claim c (sym a.claimed ∙ r)) in
      let nonce' : b.claim.nonce ≡ c'.nonce =
        ap (λ (x : Claim). x.nonce) (ok-injective b.claim c' (sym b.claimed ∙ r')) in
      let gone : expiry_of c.nonce t.discovery_challenges ≡ none =
        ap (λ (x : AppState). expiry_of c.nonce x.discovery_challenges) a.used_up
        ∙ ap (λ x. expiry_of c.nonce (discard x s.discovery_challenges)) nonce
        ∙ expiry_of-discard c.nonce s.discovery_challenges in
      let there : expiry_of c.nonce t'.discovery_challenges ≡ some b.proven.expires =
        ap (λ x. expiry_of x t'.discovery_challenges) (sym same ∙ sym nonce') ∙ b.proven.issued in
      absurd (cc (sym (Since-IsGone c.nonce t t' since gone) ∙ there))
