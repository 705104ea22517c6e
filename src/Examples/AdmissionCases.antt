-- ===== src/Examples/AdmissionCases.antt =====
-- Two connections to Alice's server: Bob repeats an old status, and Alice signs the challenge.
use embernet.Prelude.{
  Bytes, Str, str_beq, codes, List, [], ◌∷◌, some, ◌≡◌, refl, ◌⊎◌, str_eq, nat_eq, option_eq, ◌≢◌,
  Bool, true, false, inl, inr, sym, ap, ap₂, ◌∙◌, subst, ◌++◌,
}
use mathlib.Core.Option.{some-injective}
use embernet.Fallible.{ok, err, ok-injective}
use embernet.Ndjson.{encode_lines, read_ndjson, parse_lines, lines, is_blank, strip_return}
use embernet.Util.{
  valid_channel, push_byte, all_allowed, allowed, starts_with_slash, ends_with_slash,
  has_double_slash,
}
use embernet.Policy.{policy_allows_read}
use embernet.Policy.History.Prefix.{is_policy_prefix}
use embernet.Challenges.{AuthChallenge, make_auth_challenge}
use embernet.Challenges.Decimal.{show_i64, digits}
use embernet.I64.{add_i64, sub_i64, abs_i64, lt_i64, is_stale}
use embernet.Proto.{signing_key, sign_bytes, verify_bytes}
use embernet.Policy.Actions.{validate_public_key, apply_policy_action}
use embernet.Policy.History.{check_policy_event, replay_policy, derive_policy}
use embernet.PolicyStore.{read_history, read_channel_policy}
use embernet.Sync.Socket.{Frame, text_frame, next, send, next_text, first_text}
use embernet.Sync.Session.{Connection}
use embernet.Sync.{StatusMessage, sync_version, sync_auth_payload, check_limits}
use embernet.Sync.Server.{read_status, authenticate, serve, answer_status, run_sync}
use embernet.Sync.Server.Reconciliation.{require_member, reconcile_policy, reconcile_moderation}
use embernet.Sync.Server.Admission.{IsHidden, IsAdmitted, run_sync-discloses}
use embernet.Examples.Toy.{toy, repeat, toy_signature}
use embernet.Examples.ToyCiphers.{toy_ciphers}
use embernet.Examples.Wire.{
  message_vec, policy_payload_vec, policy_event_json, policy_cache_json, keyring_json,
}
use embernet.Examples.ModerationWire.{
  moderation_payload_vec, moderation_event_json, moderation_state_json,
}
use embernet.Examples.SyncWire.{offer_payload_vec, toy_sync_json}
use embernet.Examples.Tables.{toy_redb, envelope_json}
use embernet.Examples.People.{key_of, alice}
use embernet.Examples.SyncCases.{nonce, nonces, restricted_node}
use embernet.Prelude.{is_prefix}
use embernet.Moderation.{derive_moderation, replay_moderation}
use embernet.Moderation.Prefix.{is_moderation_prefix}
use embernet.ModerationStore.{validate_moderation_history, read_moderation_history, read_moderation}
use embernet.Sync.Server.KeyExchange.{exchange_keys, read_key_sync}

abbrev in_order : List Str → List Str
in_order ids = ids

-- Bob repeats a status that he has signed for another challenge.
abbrev status_by_bob : StatusMessage
status_by_bob = record {
  msg_type = codes "status";
  version = sync_version;
  channel = codes "a";
  requester = key_of 2;
  auth_ts = 1001;
  auth_sig = toy_signature (key_of 2) (sync_auth_payload 1001 (codes "a") (repeat 32 8) (key_of 1));
  policy_events = [];
  moderation_events = [];
  chunks = [];
}

abbrev asked_by_bob : Connection
asked_by_bob = record {
  channels = λ name. restricted_node;
  socket = record {
    incoming = text_frame (toy_sync_json.status.to_vec status_by_bob) ∷ [];
    sent = [];
    room = 9;
  };
}

abbrev after_bob : Connection
after_bob = (run_sync (ok alice) nonces in_order alice nonce 1000 1002 1003 asked_by_bob).1

abbrev alice_challenge : AuthChallenge
alice_challenge = elim (make_auth_challenge alice (codes "/sync") nonce 1000) [
  | ok c ↦ c
  | err e ↦ record { msg_type = []; nonce = []; responder = []; expires = 0; signature = [] }
]

alice_challenges : make_auth_challenge alice (codes "/sync") nonce 1000 ≡ ok alice_challenge
unfolding make_auth_challenge sign_bytes signing_key
alice_challenges = refl

bob_unauthentic : authenticate alice_challenge status_by_bob 1002 1003 ≢ ok tt
unfolding authenticate verify_bytes is_stale str_beq make_auth_challenge sign_bytes signing_key
    sync_auth_payload show_i64 digits abs_i64 sub_i64 lt_i64 add_i64
bob_unauthentic h = absurd (cc h)

left_of {ℓ} : {A B : Type ℓ} → A ⊎ B → ¬ B → A
left_of (inl a) h = a
left_of (inr b) h = absurd (h b)

-- The status that Bob has sent is read.
bob_decoded :
    (t : Bytes) (later : List Frame) (status : StatusMessage)
    → asked_by_bob.socket.incoming ≡ text_frame t ∷ later
    → toy_sync_json.status.from_slice t ≡ some status
    → status_by_bob ≡ status
unfolding sync_auth_payload show_i64 digits
bob_decoded t later status received decoded =
    let sent : toy_sync_json.status.to_vec status_by_bob ≡ t = cc received in
    some-injective status_by_bob status
      (subst (λ u. toy_sync_json.status.from_slice u ≡ some status) (sym sent) decoded)

-- Bob is not admitted, for he has not signed this challenge.
bob_refused : ¬ (
    (x : AuthChallenge) × (make_auth_challenge alice (codes "/sync") nonce 1000 ≡ ok x)
    × IsAdmitted
        (ok alice)
        nonces
        in_order
        x
        1002
        1003
        ([] ++ toy_sync_json.challenge.to_vec x ∷ [])
        asked_by_bob
        after_bob)
bob_refused (x, made, a) =
    let e = bob_decoded a.text a.later a.status a.received a.decoded in
    let c = ok-injective alice_challenge x (sym alice_challenges ∙ made) in
    absurd (
      bob_unauthentic (
        ap₂ (λ (y : AuthChallenge) (q : StatusMessage). authenticate y q 1002 1003) c e
        ∙ a.authentic))

-- Bob has learnt nothing but the challenge, and changed nothing.
run_sync-discloses_example :
    IsHidden (ok alice) nonces in_order alice nonce 1000 asked_by_bob after_bob
run_sync-discloses_example =
    left_of (run_sync-discloses (ok alice) nonces in_order alice nonce 1000 1002 1003 asked_by_bob)
      bob_refused

-- Alice, who may read the channel, signs the challenge.
abbrev status_by_alice : StatusMessage
status_by_alice = record status_by_bob {
  requester = key_of 1;
  auth_sig = toy_signature (key_of 1) (sync_auth_payload 1001 (codes "a") nonce (key_of 1));
}

abbrev asked_by_alice : Connection
asked_by_alice = record asked_by_bob {
  socket = record asked_by_bob.socket {
    incoming = text_frame (toy_sync_json.status.to_vec status_by_alice) ∷ [];
  };
}

abbrev after_alice : Connection
after_alice = (run_sync (ok alice) nonces in_order alice nonce 1000 1002 1003 asked_by_alice).1

abbrev is_longer : List Bytes → Bool
is_longer [] = false
is_longer (x ∷ []) = false
is_longer (x ∷ y ∷ l) = true

more_sent : is_longer after_alice.socket.sent ≡ true
unfolding run_sync answer_status serve read_status authenticate reconcile_policy require_member send
    next make_auth_challenge sign_bytes signing_key verify_bytes is_stale sub_i64 abs_i64 lt_i64
    add_i64 show_i64 digits sync_auth_payload read_channel_policy read_history derive_policy
    replay_policy check_policy_event apply_policy_action validate_public_key str_beq
    is_policy_prefix read_ndjson parse_lines lines encode_lines push_byte is_blank strip_return
    policy_allows_read valid_channel all_allowed allowed starts_with_slash ends_with_slash
    has_double_slash check_limits is_prefix reconcile_moderation validate_moderation_history
    derive_moderation replay_moderation read_moderation_history read_moderation is_moderation_prefix
    exchange_keys read_key_sync next_text first_text
more_sent = refl

alice_sees_more :
    ¬ (IsHidden (ok alice) nonces in_order alice nonce 1000 asked_by_alice after_alice)
alice_sees_more h = elim h.only_challenge [
  | inl e ↦ absurd (cc (sym (ap is_longer e) ∙ more_sent))
  | inr (x, _, e) ↦ absurd (cc (sym (ap is_longer e) ∙ more_sent))
]

right_of {ℓ} : {A B : Type ℓ} → A ⊎ B → ¬ A → B
right_of (inl a) h = absurd (h a)
right_of (inr b) h = b

alice-IsAdmitted :
    (x : AuthChallenge) × (make_auth_challenge alice (codes "/sync") nonce 1000 ≡ ok x)
    × IsAdmitted
        (ok alice)
        nonces
        in_order
        x
        1002
        1003
        ([] ++ toy_sync_json.challenge.to_vec x ∷ [])
        asked_by_alice
        after_alice
alice-IsAdmitted =
    right_of
      (run_sync-discloses (ok alice) nonces in_order alice nonce 1000 1002 1003 asked_by_alice)
      alice_sees_more
