-- ===== src/Examples/SyncCases.antt =====
-- A session with a peer that sends a shorter history.
use embernet.Prelude.{
  ℕ, Bytes, str_beq, codes, List, [], ◌∷◌, none, some, ◌≡◌, refl, str_eq, nat_eq, option_eq, ◌↔◌,
  ◌≢◌, true, contains,
}
use embernet.Fallible.{Result, ok, err}
use embernet.Ndjson.{encode_lines, read_ndjson, parse_lines, lines, is_blank, strip_return}
use embernet.Util.{push_byte}
use embernet.Challenges.{AuthChallenge, make_auth_challenge}
use embernet.Proto.{verify_bytes}
use embernet.Policy.Actions.{validate_public_key, apply_policy_action}
use embernet.Policy.History.{check_policy_event, replay_policy, derive_policy}
use embernet.PolicyStore.{read_history}
use embernet.MessageLog.Messages.{IndexedDir}
use embernet.MessageLog.Reading.{ChunkSummary}
use embernet.Sync.Socket.{text_frame, other_frame}
use embernet.Sync.Session.{Session}
use embernet.Sync.{PolicySync}
use embernet.Sync.Server.Inventory.{differing, where_different, hash_of}
use embernet.Sync.Sets.{sort_indices, distinct}
use embernet.Sync.Server.Convergence.{differing_iff}
use embernet.Sync.Client.{sync_from_peer}
use embernet.Examples.Toy.{toy, repeat}
use embernet.Examples.ToyCiphers.{toy_ciphers}
use embernet.Examples.Wire.{
  message_vec, policy_payload_vec, policy_event_json, policy_cache_json, keyring_json,
}
use embernet.Examples.ModerationWire.{
  moderation_payload_vec, moderation_event_json, moderation_state_json,
}
use embernet.Examples.SyncWire.{offer_payload_vec, toy_sync_json}
use embernet.Examples.Tables.{toy_redb, envelope_json}
use embernet.Examples.People.{alice, bob, first}
use embernet.Examples.StoreCases.{new_dir}

abbrev pub nonce : Bytes
nonce = repeat 32 7

abbrev pub nonces : ℕ → Bytes
nonces n = repeat 24 3

-- Alice has restricted the channel.
abbrev pub restricted_node : IndexedDir
restricted_node = record {
  dir = record new_dir { policy_log = some (encode_lines (first ∷ [])) };
  index = none;
}

-- A peer that sends the empty history.
abbrev challenge : AuthChallenge
challenge = elim (make_auth_challenge bob (codes "/sync") nonce 1000) [
  | ok c ↦ c
  | err e ↦ record { msg_type = []; nonce = []; responder = []; expires = 0; signature = [] }
]

abbrev nothing_new : PolicySync
nothing_new = record { msg_type = codes "policy_sync"; status = codes "update"; events = [] }

abbrev pub asks_bob : Session
asks_bob = record {
  node = restricted_node;
  socket = record {
    incoming =
        text_frame (toy_sync_json.challenge.to_vec challenge)
        ∷ other_frame
        ∷ text_frame (toy_sync_json.policy.to_vec nothing_new)
        ∷ [];
    sent = [];
    room = 9;
  };
}

pub history_read : read_history (codes "a") restricted_node.dir.policy_log ≡ ok (first ∷ [])
unfolding read_history derive_policy replay_policy check_policy_event verify_bytes
    apply_policy_action validate_public_key str_beq read_ndjson parse_lines lines encode_lines
    push_byte is_blank strip_return
history_read = refl

abbrev session_done : Result ℕ × Session
session_done =
    sync_from_peer (codes "a") (ok alice) (ok tt) (ok none) nonces 1001 1002 1003 asks_bob

abbrev summary : ℕ → Bytes → ChunkSummary
summary i h = record { index = i; count = 1; hash = h }

abbrev here : List ChunkSummary
here = summary 1 (codes "x") ∷ summary 2 (codes "y") ∷ []

abbrev there : List ChunkSummary
there = summary 2 (codes "z") ∷ summary 1 (codes "x") ∷ summary 3 (codes "w") ∷ []

only_two_and_three : differing here there ≡ 2 ∷ 3 ∷ []
unfolding differing str_beq sort_indices where_different distinct contains hash_of
only_two_and_three = refl

differing_iff_example :
    (contains 2 (differing here there) ≡ true) ↔ (hash_of 2 here ≢ hash_of 2 there)
differing_iff_example = differing_iff 2 here there
