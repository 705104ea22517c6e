-- ===== src/Challenges/Trust.antt =====
-- A client accepts the challenge that a server of src/server.rs makes, and knows whose it is.
use embernet.Prelude.{
  ℕ, Bytes, Str, true, not, ◌||◌, Option, ◌+◌, ◌^◌, ◌<◌, ◌≤◌, length, nat_eq, str_eq, beq_refl,
  nat_beq_iff, ◌≡◌, arith,
}
use embernet.Fallible.{ok, ok-injective}
use embernet.Fallible.Checks.{bind-eq_ok}
use embernet.Crates.{Crates, SignLaws}
use embernet.I64.{add_i64, lt_i64}
use embernet.Proto.{KeypairFile, sign_bytes}
use embernet.Proto.Envelopes.{OwnsKey, sign_bytes-verifies}
use embernet.Challenges.{
  AuthChallenge, challenge_word, make_auth_challenge, is_expected, verify_auth_challenge,
}

module _ ⦃k : Crates⦄ where
  in_time :
      (now later later' : ℕ)
      → now ≤ later
      → later ≤ later'
      → later ≤ now + 60
      → later' + 60 < 2 ^ 63
      → not (lt_i64 (add_i64 now 60) later || lt_i64 (add_i64 later' 60) (add_i64 now 60)) ≡ true
  unfolding lt_i64 add_i64
  in_time now later later' a b c d = ground arith

  -- Within the 60 seconds after a server has made a challenge from 32 random bytes with its own keys,
  -- a client that expects this server or has no expectation accepts the challenge.
  pub make-verify_auth_challenge :
      (kf : KeypairFile) (pair raw : Bytes) (target : Str) (expected : Option Str)
      (now later later' : ℕ) (c : AuthChallenge)
      → SignLaws k
      → OwnsKey kf pair
      → length raw ≡ 32
      → is_expected expected kf.public_key ≡ true
      → now ≤ later
      → later ≤ later'
      → later ≤ now + 60
      → later' + 60 < 2 ^ 63
      → make_auth_challenge kf target raw now ≡ ok c
      → verify_auth_challenge c target expected later later' ≡ ok tt
  unfolding make_auth_challenge verify_auth_challenge
  make-verify_auth_challenge kf pair raw target expected now later later' c laws own size pinned x y
        z w h =
      let (sig, signed, e) = bind-eq_ok (sign_bytes kf _) _ h in
      let made = ok-injective _ c e in
      let good = sign_bytes-verifies kf pair _ sig laws own signed in
      rw
        (
          ← made,
          beq_refl challenge_word,
          in_time now later later' x y z w,
          laws.decode_encode raw,
          (nat_beq_iff (length raw) 32).1 size,
          pinned,
        )
        good
