-- ===== src/Examples/DiscoveryCases.antt =====
-- Bob asks Alice's server for its channels, and a peer advertises some names.
use embernet.Prelude.{
  Bytes, Str, str_beq, str_le, codes, true, List, [], ◌∷◌, ◌++◌, Option, none, some, ◌≡◌, refl,
  str_eq, contains, sort, arith,
}
use embernet.Fallible.{ok, err}
use embernet.I64.{lt_i64, add_i64}
use embernet.Ndjson.{Json}
use embernet.Ndjson.Laws.{EndsClean-encode}
use embernet.Util.{
  valid_channel, push_byte, all_allowed, allowed, starts_with_slash, ends_with_slash,
  has_double_slash,
}
use embernet.Util.Paths.{join_segments}
use embernet.Proto.{sign_bytes, signing_key, verify_bytes}
use embernet.Channel.{ChannelDir}
use embernet.Policy.{PolicyEvent}
use embernet.PolicyStore.{read_history, read_policy_cache, read_channel_policy}
use embernet.PolicyStore.Changes.Effects.{FileEndsClean}
use embernet.Challenges.{
  AuthChallenge, AppState, Headers, challenge, discard, make_auth_challenge, verify_auth_challenge,
  discovery_auth_payload, responder_challenge_payload, retain_active, discovery_requester,
}
use embernet.Challenges.Decimal.{show_i64, digits}
use embernet.Discovery.{
  directory, plain_file, Entries, no_entries, entry_and, collect_channels, list_channels,
  keep_readable, list_readable_channels, listing, status,
}
use embernet.Discovery.Disclosure.{IsDisclosed, status-IsDisclosed}
use embernet.Sync.Discovery.{
  PeerStatus, Peer, dedup, keep_valid, read_reply, status_url_of, signed_headers,
  discover_peer_channels, Visit, Node, sync_all_from_peer,
}
use embernet.Sync.Discovery.Advertised.{IsDiscovered, discover_peer_channels-IsDiscovered}
use embernet.Sync.Discovery.Acceptance.{challenge-discovery_requester}
use embernet.Sync.Discovery.Visits.{sync_all_from_peer-keeps_histories}
use embernet.Examples.Codes.{list_code, str_code, code_json, code-VecLaws, code-LineLaws}
use embernet.Examples.Toy.{toy, repeat, toy_signature, toy-SignLaws, toy-HashLaws}
use embernet.Examples.ToyCiphers.{toy_ciphers}
use embernet.Examples.Wire.{
  message_vec, policy_payload_vec, policy_event_json, policy_cache_json, keyring_json,
  policy_payload_code, policy_event_code,
}
use embernet.Examples.ModerationWire.{
  moderation_payload_vec, moderation_event_json, moderation_state_json,
}
use embernet.Examples.SyncWire.{offer_payload_vec, toy_sync_json}
use embernet.Examples.Tables.{toy_redb, envelope_json}
use embernet.Examples.People.{key_of, pair_of, alice, bob, bob-OwnsKey, first}
use embernet.Examples.StoreCases.{new_dir}
use embernet.Examples.SyncCases.{restricted_node, history_read, asks_bob}
use embernet.Examples.PeerCases.{toy_urls}

abbrev nonce : Bytes
nonce = repeat 32 7

abbrev no_challenges : AppState
no_challenges = record { identity = alice; discovery_challenges = [] }

abbrev empty_challenge : AuthChallenge
empty_challenge = record { msg_type = []; nonce = []; responder = []; expires = 0; signature = [] }

abbrev made_for : Str → AuthChallenge
made_for target = elim (make_auth_challenge alice target nonce 1000) [
  | ok c ↦ c
  | err e ↦ empty_challenge
]

abbrev asked : AuthChallenge
asked = made_for (codes "/status")

abbrev with_challenge : AppState
with_challenge = (challenge nonce 1000 1000 no_challenges).1

alice_asks : challenge nonce 1000 1000 no_challenges ≡ (ok asked, with_challenge)
unfolding challenge make_auth_challenge sign_bytes signing_key add_i64 retain_active
alice_asks = refl

abbrev signature : Str
signature = toy_signature (key_of 2) (discovery_auth_payload 1010 asked.nonce asked.responder)

bob_signs : sign_bytes bob (discovery_auth_payload 1010 asked.nonce asked.responder) ≡ ok signature
unfolding sign_bytes signing_key
bob_signs = refl

challenge-discovery_requester_example :
    discovery_requester (signed_headers bob asked 1010 signature) 1020 1021 with_challenge ≡ (
      ok (some (key_of 2)),
      record with_challenge {
        discovery_challenges = discard asked.nonce with_challenge.discovery_challenges;
      },
    )
challenge-discovery_requester_example =
    challenge-discovery_requester bob (pair_of 2) nonce 1000 1000 1010 1020 1021 asked no_challenges
      with_challenge signature toy-SignLaws bob-OwnsKey (omega arith) (omega arith) (omega arith)
      (omega arith) (omega arith) alice_asks bob_signs

-- A public channel below the data directory.
abbrev tree : Entries
tree =
    entry_and (directory (codes "a") (entry_and (plain_file (codes "log.ndjson")) no_entries))
      no_entries

abbrev nobody : Headers
nobody = record { key = none; timestamp = none; signature = none; nonce = none }

abbrev public_channels : Str → ChannelDir
public_channels name = new_dir

one_named :
    status (some tree) public_channels nobody 1020 1021 no_challenges
    ≡ (listing (codes "a" ∷ []), no_challenges)
unfolding status discovery_requester list_readable_channels list_channels collect_channels sort
    join_segments keep_readable valid_channel push_byte read_channel_policy read_policy_cache
    str_beq all_allowed allowed starts_with_slash ends_with_slash has_double_slash
one_named = refl

status-IsDisclosed_example :
    (requester : Option Str) × (discovery_requester nobody 1020 1021 no_challenges
      ≡ (ok requester, no_challenges))
    × IsDisclosed public_channels (some tree) requester (codes "a")
unfolding contains str_beq
status-IsDisclosed_example =
    status-IsDisclosed public_channels (some tree) nobody 1020 1021 no_challenges no_challenges
      (codes "a" ∷ []) (codes "a") one_named refl

-- A peer that names two channels, one of them twice, and a name that is not valid.
abbrev names_json : Json (List Str)
names_json = code_json (list_code str_code)

instance abbrev status_json : Json PeerStatus
status_json = record {
  to_vec = λ s. names_json.to_vec s.channels;
  from_slice = λ t. elim (names_json.from_slice t) [
    | none ↦ none
    | some names ↦ some (record { is_ok = true; channels = names })
  ];
}

abbrev advertised : Bytes
advertised = names_json.to_vec (codes "b" ∷ codes "/" ∷ codes "a" ∷ codes "b" ∷ [])

abbrev peer : Peer toy_urls
peer = record {
  get_challenge = λ url. ok asked;
  get_status = λ url h. ok (record { content_length = some 20; body = ok advertised });
}

abbrev names : List Str
names = codes "a" ∷ codes "b" ∷ []

discovered :
    discover_peer_channels (ok bob) (ok (some (key_of 1))) peer (codes "ws://p") 1005 1006 1010
    ≡ ok names
unfolding discover_peer_channels status_url_of read_reply dedup keep_valid sort str_le valid_channel
    push_byte str_beq make_auth_challenge verify_auth_challenge verify_bytes sign_bytes signing_key
    add_i64 lt_i64 all_allowed allowed starts_with_slash ends_with_slash has_double_slash
    responder_challenge_payload show_i64 digits
discovered = refl

discover_peer_channels-IsDiscovered_example :
    IsDiscovered (ok bob) (ok (some (key_of 1))) peer (codes "ws://p") 1005 1006 1010 names
discover_peer_channels-IsDiscovered_example =
    discover_peer_channels-IsDiscovered (ok bob) (ok (some (key_of 1))) peer (codes "ws://p") 1005
      1006 1010 names discovered

abbrev visits : Str → Visit
visits name = record {
  identity_file = ok alice;
  connected = ok tt;
  expected = ok none;
  nonces = λ i. repeat 24 3;
  auth_ts = 1001;
  now = 1002;
  now' = 1003;
  socket = asks_bob.socket;
}

abbrev node : Node
node name = restricted_node

abbrev done : Node
done = (sync_all_from_peer (ok names) visits node).1

sync_all_from_peer-keeps_histories_example :
    FileEndsClean (done (codes "a")).dir.policy_log
    × ((more : List PolicyEvent) × (read_history (codes "a") (done (codes "a")).dir.policy_log
          ≡ ok (first ∷ [] ++ more)))
sync_all_from_peer-keeps_histories_example =
    sync_all_from_peer-keeps_histories toy-HashLaws (code-VecLaws policy_payload_code)
      (code-LineLaws policy_event_code) visits (ok names) node (codes "a") (first ∷ [])
      (EndsClean-encode (first ∷ [])) history_read
