-- ===== src/Examples/ChallengeCases.antt =====
-- Bob asks Alice's server for a challenge and redeems it.
use embernet.Prelude.{
  Str, str_beq, codes, false, [], ◌∷◌, some, ◌≡◌, ◌≢◌, ◌+◌, ◌^◌, refl, ap, ◌∙◌, str_eq, arith,
}
use embernet.Fallible.{ok, ok-injective}
use embernet.I64.{add_i64, sub_i64, abs_i64, lt_i64, is_stale, is_stale-wraps}
use embernet.Proto.{signing_key, sign_bytes, verify_bytes}
use embernet.Challenges.Decimal.{digits, show_i64, read_digits, read_bounded, parse_i64}
use embernet.Challenges.{
  AuthChallenge, challenge_word, responder_challenge_payload, discovery_auth_payload, expiry_of,
  put, discard, retain_active, AppState, Headers, Claim, read_claim, make_auth_challenge,
  verify_auth_challenge, challenge, check_claim, redeem, discovery_requester,
}
use embernet.Challenges.Since.{Since}
use embernet.Challenges.Once.{IsAnswered, discovery_requester-IsAnswered, discovery_requester-once}
use embernet.Challenges.Table.{new_server, started, challenged, IsBounded, Reaches-IsBounded}
use embernet.Challenges.Trust.{make-verify_auth_challenge}
use embernet.Examples.Toy.{toy, repeat, toy_signature, toy-SignLaws}
use embernet.Examples.People.{key_of, pair_of, alice, alice-OwnsKey}

abbrev nonce : Str
nonce = repeat 32 7

abbrev table_of_one : AppState
table_of_one = record { identity = alice; discovery_challenges = (nonce, 1060) ∷ [] }

abbrev request : Headers
request = record {
  key = some (some (key_of 2));
  timestamp = some (some (codes "1000"));
  signature = some (some (toy_signature (key_of 2) (discovery_auth_payload 1000 nonce (key_of 1))));
  nonce = some (some nonce);
}

abbrev claim : Claim
claim = record {
  key = key_of 2;
  timestamp = 1000;
  signature = toy_signature (key_of 2) (discovery_auth_payload 1000 nonce (key_of 1));
  nonce = nonce;
}

request_read : read_claim request ≡ ok claim
unfolding read_claim parse_i64 read_bounded read_digits
request_read = refl

bob_answered :
    discovery_requester request 1000 1001 table_of_one ≡ (ok (some (key_of 2)), new_server alice)
unfolding discovery_requester redeem check_claim read_claim parse_i64 read_bounded read_digits
    is_stale abs_i64 sub_i64 lt_i64 expiry_of discard verify_bytes discovery_auth_payload show_i64
    digits str_beq
bob_answered = refl

discovery_requester-IsAnswered_example :
    IsAnswered request 1000 1001 (key_of 2) table_of_one (new_server alice)
discovery_requester-IsAnswered_example =
    discovery_requester-IsAnswered request 1000 1001 (key_of 2) table_of_one (new_server alice)
      bob_answered

-- After the request, Alice's server issues another challenge.
abbrev issued_again : AppState
issued_again = (challenge (repeat 32 8) 1001 1001 (new_server alice)).1

other_nonce :
    (c : AuthChallenge)
    → (challenge (repeat 32 8) 1001 1001 (new_server alice)).0 ≡ ok c
    → c.nonce ≢ nonce
unfolding challenge make_auth_challenge sign_bytes signing_key retain_active
other_nonce c h = λ e. absurd (cc (ap (λ (x : AuthChallenge). x.nonce) (ok-injective _ c h) ∙ e))

discovery_requester-once_example :
    discovery_requester request 1001 1002 issued_again ≢ (ok (some (key_of 2)), issued_again)
discovery_requester-once_example =
    discovery_requester-once request request 1000 1001 1001 1002 (key_of 2) (key_of 2) table_of_one
      (new_server alice) issued_again issued_again claim claim request_read request_read refl
      bob_answered
      (Since.challenged (new_server alice) (repeat 32 8) 1001 1001 other_nonce Since.at_once)

Reaches-IsBounded_example : IsBounded alice (challenge nonce 1000 1000 (new_server alice)).1
Reaches-IsBounded_example =
    Reaches-IsBounded alice (challenge nonce 1000 1000 (new_server alice)).1
      (challenged (new_server alice) nonce 1000 1000 started)

-- Asking puts the challenge that is redeemed above into the table.
alice_challenges : (challenge nonce 1000 1000 (new_server alice)).1 ≡ table_of_one
unfolding challenge make_auth_challenge sign_bytes signing_key responder_challenge_payload show_i64
    digits add_i64 retain_active put
alice_challenges = refl

abbrev made : AuthChallenge
made = record {
  msg_type = challenge_word;
  nonce = nonce;
  responder = key_of 1;
  expires = 1060;
  signature =
      toy_signature (key_of 1) (responder_challenge_payload (codes "/sync") nonce (key_of 1) 1060);
}

alice_makes : make_auth_challenge alice (codes "/sync") nonce 1000 ≡ ok made
unfolding make_auth_challenge sign_bytes signing_key add_i64
alice_makes = refl

make-verify_auth_challenge_example :
    verify_auth_challenge made (codes "/sync") (some (key_of 1)) 1030 1031 ≡ ok tt
make-verify_auth_challenge_example =
    make-verify_auth_challenge alice (pair_of 1) nonce (codes "/sync") (some (key_of 1)) 1000 1030
      1031 made toy-SignLaws alice-OwnsKey refl (unfold str_beq in refl) (omega arith) (omega arith)
      (omega arith) (omega arith) alice_makes

is_stale-wraps_example : is_stale 1000 (1000 + 2 ^ 63) ≡ false
is_stale-wraps_example = is_stale-wraps 1000 (omega arith)
