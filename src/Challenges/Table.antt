-- ===== src/Challenges/Table.antt =====
-- The states that the server of src/server.rs can reach by its requests.
use embernet.Prelude.{ℕ, Bytes, codes, [], ◌≤◌, length, leb, ◌≡◌, refl, arith, Bool-cases, inl, inr}
use embernet.Fallible.{Result-cases}
use embernet.Crates.{Crates}
use embernet.Proto.{KeypairFile}
use embernet.Challenges.{
  AppState, Headers, read_claim, make_auth_challenge, retain_active, challenge, check_claim, redeem,
  has_none, discovery_requester,
}
use embernet.Challenges.Once.{length-discard, length-retain_active, length-put}

abbrev pub new_server : KeypairFile → AppState
new_server identity = record { identity = identity; discovery_challenges = [] }

module _ ⦃k : Crates⦄ where
  -- The requests, one after the other, whether they succeed or fail.
  pub data Reaches (identity : KeypairFile) : AppState → Type 0 where
    started : Reaches identity (new_server identity)
    challenged :
        (s : AppState) (raw : Bytes) (made_at now : ℕ)
        → Reaches identity s
        → Reaches identity (challenge raw made_at now s).1
    answered :
        (s : AppState) (h : Headers) (now now' : ℕ)
        → Reaches identity s
        → Reaches identity (discovery_requester h now now' s).1

  -- The server keeps its identity, and its table has at most 10,000 challenges.
  abbrev pub IsBounded : KeypairFile → AppState → Type 0
  IsBounded identity s = (s.identity ≡ identity) × (length s.discovery_challenges ≤ 10000)

  challenge-IsBounded :
      (identity : KeypairFile) (s : AppState) (raw : Bytes) (made_at now : ℕ)
      → IsBounded identity s
      → IsBounded identity (challenge raw made_at now s).1
  unfolding challenge
  challenge-IsBounded identity s raw made_at now (same, bound) =
      let kept = length-retain_active now s.discovery_challenges in
      elim (Result-cases (make_auth_challenge s.identity (codes "/status") raw made_at)) [
        | inr (e, h) ↦ rw h (same, bound)
        | inl (c, h) ↦
            elim (Bool-cases (leb 10000 (length (retain_active now s.discovery_challenges)))) [
              | inl b ↦ rw (h, b) (same, omega (arith, kept, bound))
              | inr b ↦
                  let more =
                    length-put c.nonce c.expires (retain_active now s.discovery_challenges) in
                  rw (h, b) (same, ground (arith, more))
            ]
      ]

  answer-IsBounded :
      (identity : KeypairFile) (s : AppState) (h : Headers) (now now' : ℕ)
      → IsBounded identity s
      → IsBounded identity (discovery_requester h now now' s).1
  unfolding discovery_requester redeem
  answer-IsBounded identity s h now now' (same, bound) = elim (Bool-cases (has_none h)) [
    | inl b ↦ rw b (same, bound)
    | inr b ↦ elim (Result-cases (read_claim h)) [
      | inr (e, r) ↦ rw (b, r) (same, bound)
      | inl (c, r) ↦ elim (Result-cases (check_claim c now now' s)) [
        | inr (e, f) ↦ rw (b, r, f) (same, bound)
        | inl (_, f) ↦
            let fewer = length-discard c.nonce s.discovery_challenges in
            rw (b, r, f) (same, omega (arith, fewer, bound))
      ]
    ]
  ]

  -- Whatever requests a server has had, in whatever order and at whatever times, its table holds at
  -- most 10,000 challenges and its identity is the one it started with.
  pub Reaches-IsBounded :
      (identity : KeypairFile) (s : AppState) → Reaches identity s → IsBounded identity s
  Reaches-IsBounded identity _ started = (refl, omega arith)
  Reaches-IsBounded identity _ (challenged s raw made_at now r) =
      challenge-IsBounded identity s raw made_at now (Reaches-IsBounded identity s r)
  Reaches-IsBounded identity _ (answered s h now now' r) =
      answer-IsBounded identity s h now now' (Reaches-IsBounded identity s r)
