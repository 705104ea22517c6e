-- ===== src/Challenges.antt =====
-- One-time challenges: `make_auth_challenge` and `verify_auth_challenge` of src/sync.rs, and the table
-- of them in src/server.rs. The readings of the clock and the random bytes are arguments; the lock of
-- the table makes each request run alone.
pub mod Decimal
pub mod Since
pub mod Once
pub mod Trust
pub mod Table
use embernet.Prelude.{
  ℕ, Bytes, Str, Bool, true, false, ◌&&◌, ◌||◌, not, codes, List, [], ◌∷◌, ◌++◌, Option, none, some,
  length, leb, ◌==◌, nat_eq, str_eq, if◌then◌else◌,
}
use embernet.Fallible.{
  Result, ok, err, ensure, context, Action, reads, lift, pure, writes, stale_signature,
  unknown_challenge, expired_challenge, too_many_challenges, missing_header, bad_timestamp,
  not_a_challenge, bad_expiry, bad_nonce, identity_mismatch,
}
use embernet.Fallible.Checks
use embernet.Fallible.Actions.{◌>>=◌, ◌>>◌}
use embernet.Crates.{Crates}
use embernet.I64.{add_i64, lt_i64, is_stale}
use embernet.Proto.{KeypairFile, sign_bytes, verify_bytes}
use embernet.Challenges.Decimal.{show_i64, parse_i64}

pub record AuthChallenge : Type 0 where
  pub msg_type : Str
  pub nonce : Str
  pub responder : Str
  pub expires : ℕ
  pub signature : Str

abbrev pub challenge_word : Str
challenge_word = codes "challenge"

abbrev pub line_break : Str
line_break = b'\n' ∷ []

unfoldable pub responder_challenge_payload : Str → Str → Str → ℕ → Bytes
responder_challenge_payload target nonce responder expires =
    codes "embernet-responder-challenge-v1"
    ++ (line_break
        ++ (target
            ++ (line_break
                ++ (nonce ++ (line_break ++ (responder ++ (line_break ++ show_i64 expires)))))))

unfoldable pub discovery_auth_payload : ℕ → Str → Str → Bytes
discovery_auth_payload timestamp nonce responder =
    codes "embernet-discovery-v2"
    ++ (line_break
        ++ (show_i64 timestamp
            ++ (line_break
                ++ (codes "/status" ++ (line_break ++ (nonce ++ (line_break ++ responder)))))))

-- The table of the server: nonces and when they expire.
abbrev pub Active : Type 0
Active = List (Str × ℕ)

unfoldable pub expiry_of : Str → Active → Option ℕ
expiry_of nonce [] = none
expiry_of nonce ((n, e) ∷ t) = if n == nonce then some e else expiry_of nonce t

unfoldable pub put : Str → ℕ → Active → Active
put nonce expires [] = (nonce, expires) ∷ []
put nonce expires ((n, e) ∷ t) =
    let rest = put nonce expires t in if n == nonce then (nonce, expires) ∷ t else (n, e) ∷ rest

unfoldable pub discard : Str → Active → Active
discard nonce [] = []
discard nonce ((n, e) ∷ t) =
    let rest = discard nonce t in if n == nonce then rest else (n, e) ∷ rest

-- `retain(|_, expiry| *expiry >= now)`.
unfoldable pub retain_active : ℕ → Active → Active
retain_active now [] = []
retain_active now ((n, e) ∷ t) =
    let rest = retain_active now t in if lt_i64 e now then rest else (n, e) ∷ rest

pub record AppState : Type 0 where
  pub identity : KeypairFile
  pub discovery_challenges : Active

-- A header is `none` where the request has none, and its text `none` where `to_str` refuses it.
pub record Headers : Type 0 where
  pub key : Option (Option Str)
  pub timestamp : Option (Option Str)
  pub signature : Option (Option Str)
  pub nonce : Option (Option Str)

abbrev pub is_absent : Option (Option Str) → Bool
is_absent none = true
is_absent (some h) = false

abbrev pub header_text : Option (Option Str) → Result Str
header_text none = err missing_header
header_text (some none) = err missing_header
header_text (some (some h)) = ok h

-- What a request for discovery claims.
pub record Claim : Type 0 where
  pub key : Str
  pub timestamp : ℕ
  pub signature : Str
  pub nonce : Str

unfoldable pub read_claim : Headers → Result Claim
read_claim h = Checks.◌>>=◌ (header_text h.key) λ key.
    Checks.◌>>=◌ (header_text h.timestamp) λ written.
      Checks.◌>>=◌ (context (parse_i64 written) bad_timestamp) λ timestamp.
        Checks.◌>>=◌ (header_text h.signature) λ signature.
          Checks.◌>>=◌ (header_text h.nonce) λ nonce.
            ok (record { key = key; timestamp = timestamp; signature = signature; nonce = nonce })

module _ ⦃k : Crates⦄ where
  unfoldable pub make_auth_challenge : KeypairFile → Str → Bytes → ℕ → Result AuthChallenge
  make_auth_challenge identity target raw now =
      let nonce = k.hex_encode raw in
      let expires = add_i64 now 60 in
      Checks.◌>>=◌
        (sign_bytes identity (responder_challenge_payload target nonce identity.public_key expires))
        λ signature. ok (record {
          msg_type = challenge_word;
          nonce = nonce;
          responder = identity.public_key;
          expires = expires;
          signature = signature;
        })

  -- The pinned identity of the responder, where there is one.
  abbrev pub is_expected : Option Str → Str → Bool
  is_expected none responder = true
  is_expected (some key) responder = responder == key

  unfoldable pub verify_auth_challenge :
      AuthChallenge → Str → Option Str → ℕ → ℕ → Result (Unit {0})
  verify_auth_challenge c target expected now now' =
      Checks.◌>>◌ (ensure (c.msg_type == challenge_word) not_a_challenge) (
        Checks.◌>>◌
          (ensure (not (lt_i64 c.expires now || lt_i64 (add_i64 now' 60) c.expires)) bad_expiry)
          (Checks.◌>>=◌ (context (k.hex_decode c.nonce) bad_nonce) λ nonce.
            Checks.◌>>◌ (ensure (length nonce == 32) bad_nonce) (
              Checks.◌>>◌ (ensure (is_expected expected c.responder) identity_mismatch) (
                verify_bytes c.responder c.signature
                  (responder_challenge_payload target c.nonce c.responder c.expires)))))

  -- The handler of `/challenge`.
  unfoldable pub challenge : Bytes → ℕ → ℕ → Action AppState AuthChallenge
  challenge raw made_at now = do
    c ← reads (λ s. make_auth_challenge s.identity (codes "/status") raw made_at)
    writes (λ s. record s { discovery_challenges = retain_active now s.discovery_challenges })
    reads (λ s. ensure (not (leb 10000 (length s.discovery_challenges))) too_many_challenges)
    writes (λ s. record s { discovery_challenges = put c.nonce c.expires s.discovery_challenges })
    pure c

  -- The tests of `discovery_requester` on a claim, against the table.
  unfoldable pub check_claim : Claim → ℕ → ℕ → AppState → Result (Unit {0})
  check_claim c now now' s = Checks.◌>>◌ (ensure (not (is_stale now c.timestamp)) stale_signature) (
      Checks.◌>>=◌ (context (expiry_of c.nonce s.discovery_challenges) unknown_challenge) λ expires.
        Checks.◌>>◌ (ensure (not (lt_i64 expires now')) expired_challenge) (
          verify_bytes c.key c.signature
            (discovery_auth_payload c.timestamp c.nonce s.identity.public_key)))

  -- A claim that holds uses its challenge up.
  unfoldable pub redeem : Claim → ℕ → ℕ → Action AppState (Option Str)
  redeem c now now' = do
    reads (check_claim c now now')
    writes (λ s. record s { discovery_challenges = discard c.nonce s.discovery_challenges })
    pure (some c.key)

  abbrev pub has_none : Headers → Bool
  has_none h =
      is_absent h.key && is_absent h.timestamp && is_absent h.signature && is_absent h.nonce

  unfoldable pub discovery_requester : Headers → ℕ → ℕ → Action AppState (Option Str)
  discovery_requester h now now' =
      if has_none h then pure none else (do c ← lift (read_claim h); redeem c now now')
