-- ===== src/Sync/Discovery/Acceptance.antt =====
-- A client that answers a server's challenge as `discover_peer_channels` of src/sync.rs does is
-- recognised by `discovery_requester` of src/server.rs.
use embernet.Prelude.{
  ℕ, Bytes, Str, false, not, [], ◌∷◌, ◌+◌, ◌^◌, ◌≤◌, ◌<◌, some, length, leb, str_eq, beq_refl, ◌≡◌,
  refl, sym, ap, arith,
}
use embernet.Fallible.{ok, ensure, ok-injective, too_many_challenges}
use embernet.Fallible.Checks.{bind-eq_ok}
use embernet.Fallible.Actions.{proceed-eq_ok, returned}
use embernet.Crates.{Crates, SignLaws}
use embernet.I64.{add_i64, lt_i64, is_stale, is_stale-small}
use embernet.Proto.{KeypairFile, sign_bytes}
use embernet.Proto.Envelopes.{OwnsKey, sign_bytes-verifies}
use embernet.Challenges.{
  Active, AuthChallenge, AppState, expiry_of, put, discard, retain_active, make_auth_challenge,
  discovery_auth_payload, challenge, read_claim, check_claim, redeem, discovery_requester,
}
use embernet.Challenges.Decimal.ReadBack.{parse-show_i64}
use embernet.Sync.Discovery.{signed_headers}

expiry_of-put : (n : Str) (e : ℕ) (t : Active) → expiry_of n (put n e t) ≡ some e
unfolding expiry_of put
expiry_of-put n e [] = rw (beq_refl n) refl
expiry_of-put n e ((m, f) ∷ t) = ground (arith, expiry_of-put n e t, beq_refl n)

module _ ⦃k : Crates⦄ where
  -- A server has made the challenge, and its table has it.
  record IsIssued (made_at : ℕ) (c : AuthChallenge) (s : AppState) : Type 0 where
    expires : c.expires ≡ add_i64 made_at 60
    responder : c.responder ≡ s.identity.public_key
    active : expiry_of c.nonce s.discovery_challenges ≡ some c.expires

  challenge-IsIssued :
      (raw : Bytes) (made_at now : ℕ) (c : AuthChallenge) (s t : AppState)
      → challenge raw made_at now s ≡ (ok c, t)
      → IsIssued made_at c t
  unfolding challenge make_auth_challenge
  challenge-IsIssued raw made_at now c s t h =
      let (x, made, h₁) = proceed-eq_ok _ (make_auth_challenge s.identity _ raw made_at) s t c h in
      let (sig, _, e) = bind-eq_ok (sign_bytes s.identity _) _ made in
      let same = ok-injective _ x e in
      let kept = retain_active now s.discovery_challenges in
      let (_, _, h₂) =
        proceed-eq_ok _ (ensure (not (leb 10000 (length kept))) too_many_challenges)
          (record s { discovery_challenges = kept }) t c h₁ in
      returned (λ (u : AppState) (a : AuthChallenge). IsIssued made_at a u) h₂
        (record {
          expires = sym (ap (λ (a : AuthChallenge). a.expires) same);
          responder = sym (ap (λ (a : AuthChallenge). a.responder) same);
          active = expiry_of-put x.nonce x.expires kept;
        })

  read_claim_signed :
      (identity : KeypairFile) (c : AuthChallenge) (timestamp : ℕ) (signature : Str)
      → timestamp < 2 ^ 64
      → read_claim (signed_headers identity c timestamp signature)
        ≡ ok (record {
          key = identity.public_key;
          timestamp = timestamp;
          signature = signature;
          nonce = c.nonce;
        })
  unfolding read_claim
  read_claim_signed identity c timestamp signature h = rw (parse-show_i64 timestamp h) refl

  fresh :
      (now timestamp : ℕ)
      → now < 2 ^ 63
      → timestamp ≤ now
      → now ≤ timestamp + 60
      → is_stale now timestamp ≡ false
  fresh now timestamp h a b = (is_stale-small now timestamp h (omega arith)).1 (b, omega arith)

  unexpired :
      (made_at now' : ℕ)
      → now' ≤ made_at + 60
      → made_at + 60 < 2 ^ 63
      → lt_i64 (add_i64 made_at 60) now' ≡ false
  unfolding lt_i64 add_i64
  unexpired made_at now' a b = ground arith

  -- A client with its own keys that signs the challenge which a server has just made, and whose
  -- request arrives before the clock has gone on by more than the 60 seconds of the challenge, is
  -- recognised under its public key, and the challenge is used up.
  pub challenge-discovery_requester :
      (identity : KeypairFile) (pair raw : Bytes) (made_at swept timestamp now now' : ℕ)
      (c : AuthChallenge) (s t : AppState) (signature : Str)
      → SignLaws k
      → OwnsKey identity pair
      → made_at ≤ timestamp
      → timestamp ≤ now
      → now ≤ now'
      → now' ≤ made_at + 60
      → made_at + 60 < 2 ^ 63
      → challenge raw made_at swept s ≡ (ok c, t)
      → sign_bytes identity (discovery_auth_payload timestamp c.nonce c.responder) ≡ ok signature
      → discovery_requester (signed_headers identity c timestamp signature) now now' t ≡ (
        ok (some identity.public_key),
        record t { discovery_challenges = discard c.nonce t.discovery_challenges },
      )
  unfolding discovery_requester redeem check_claim
  challenge-discovery_requester identity pair raw made_at swept timestamp now now' c s t signature
        laws own a b d e small made signed =
      let issued = challenge-IsIssued raw made_at swept c s t made in
      let good = sign_bytes-verifies identity pair _ signature laws own signed in
      rw
        (
          read_claim_signed identity c timestamp signature (omega arith),
          fresh now timestamp (omega arith) b (omega arith),
          issued.active,
          issued.expires,
          unexpired made_at now' e small,
          ← issued.responder,
          good,
        )
        refl
