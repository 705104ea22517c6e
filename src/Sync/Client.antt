-- ===== src/Sync/Client.antt =====
-- The asking side of a synchronisation in src/sync.rs: `sync_from_peer_inner` on one channel. The
-- texts of the peer are an arbitrary list of frames; a session that the time limit of `sync_from_peer`
-- cuts off is one whose frames end there.
pub mod Events
pub mod Untouched
pub mod Growth
pub mod Steps
pub mod Histories
use embernet.Prelude.{
  ℕ, Bytes, Str, Bool, true, false, ◌&&◌, not, codes, List, [], ◌∷◌, ◌+◌, Option, none, some, ◌==◌,
  nat_eq, str_eq, is_empty, if◌then◌else◌,
}
use embernet.Fallible.{
  Result, ok, err, ensure, context, Action, reads, lift, pure, fail, invalid_json, not_text,
  not_a_challenge, socket_error, policy_fork, moderation_fork, unexpected_status, sender_not_member,
  keys_for_public, peer_error, foreign_envelope, incomplete, invalid_channel_name,
}
use embernet.Fallible.Checks
use embernet.Fallible.Actions.{◌>>=◌, ◌>>◌}
use embernet.Crates.{Crates, ToVec}
use embernet.Ciphers.{Ciphers}
use embernet.Redb.{Redb}
use embernet.Ndjson.{Json}
use embernet.Util.{valid_channel}
use embernet.Proto.{KeypairFile, Message, Envelope, sign_bytes, verify}
use embernet.Challenges.{AuthChallenge, challenge_word, verify_auth_challenge}
use embernet.Channel.{ChannelDir}
use embernet.Keyring.{ChannelKey}
use embernet.KeyOffers.{KeyOffer, KeyOfferPayload, make_key_offers, accept_key_offers}
use embernet.Policy.{ChannelPolicy, is_private, policy_allows_read, PolicyEvent, PolicyEventPayload}
use embernet.PolicyStore.{read_policy_history, read_channel_policy}
use embernet.PolicyStore.Remote.{append_remote_policy_history}
use embernet.PolicyStore.Conflicts.{save_policy_conflict}
use embernet.Moderation.Tombstones.{ModerationState}
use embernet.Moderation.{ModerationEvent, ModerationEventPayload}
use embernet.ModerationStore.{read_moderation_history}
use embernet.ModerationStore.Remote.{append_remote_moderation_history}
use embernet.ModerationStore.Conflicts.{save_moderation_conflict}
use embernet.MessageLog.Messages.{append_message}
use embernet.MessageLog.Reading.{chunk_summaries}
use embernet.Sync.Socket.{Frame, text_frame, other_frame, broken_frame, Socket, text_of, next, send}
use embernet.Sync.Session.{Session, on_dir, on_node, on_socket}
use embernet.Sync.{
  SyncJson, StatusMessage, PolicySync, ModerationSync, KeySync, ChunkDiff, sync_version,
  sync_auth_payload, validate_key_offers,
}
use embernet.Sync.Server.Inventory.{collect_chunks}
use embernet.Sync.Server.Transfer.{await, send_messages}
use embernet.Sync.Server.KeyExchange.{send_keys}
use embernet.Sync.Client.Events.{
  ClientEvent, completed, failed, policy_event, moderation_event, key_event, diff_event, want_event,
  other_text, classify,
}

-- What became of a text: the session is complete, a message was stored, or neither.
pub data Outcome : Type 0 where
  finished stored carried_on : Outcome

-- The next round of the loop, with the count.
abbrev pub continue_with : ⦃r : Redb⦄ → Outcome → ℕ → (ℕ → Action Session ℕ) → Action Session ℕ
continue_with finished n go = pure n
continue_with stored n go = go (n + 1)
continue_with carried_on n go = go n

module _ ⦃s : SyncJson⦄ where
  unfoldable pub read_client_challenge : Action Socket AuthChallenge
  read_client_challenge = do
    frame ← next
    t ← lift (text_of frame)
    c ← lift (context (s.challenge.from_slice t) invalid_json)
    lift (ensure (c.msg_type == challenge_word) not_a_challenge)
    pure c

module _ ⦃r : Redb⦄ ⦃s : SyncJson⦄ ⦃k : Crates⦄ ⦃c : Ciphers⦄ ⦃v : ToVec Message⦄
    ⦃p : ToVec PolicyEventPayload⦄ ⦃m : ToVec ModerationEventPayload⦄ ⦃o : ToVec KeyOfferPayload⦄
    ⦃j : Json Envelope⦄ ⦃policy_json : Json PolicyEvent⦄ ⦃cache_json : Json ChannelPolicy⦄
    ⦃moderation_json : Json ModerationEvent⦄ ⦃state_json : Json ModerationState⦄
    ⦃key_json : Json (List ChannelKey)⦄ (chan : Str) where
  unfoldable pub take_policy : PolicySync → Action Session Outcome
  take_policy x =
      if x.status == codes "conflict"
      then (do on_dir (save_policy_conflict chan x.events); fail policy_fork)
      else (do
        lift (ensure (x.status == codes "update") unexpected_status)
        on_dir (append_remote_policy_history chan x.events)
        pure carried_on)

  unfoldable pub take_moderation : ModerationSync → Action Session Outcome
  take_moderation x =
      if x.status == codes "conflict"
      then (do on_dir (save_moderation_conflict chan x.events); fail moderation_fork)
      else (do
        lift (ensure (x.status == codes "update") unexpected_status)
        on_dir (append_remote_moderation_history chan x.events)
        pure carried_on)

  -- The keys of a private channel are taken; for a public one there must be none.
  abbrev pub accept_keys : KeypairFile → Bool → KeySync → Action Session (Unit {0})
  accept_keys identity false x = lift (ensure (is_empty x.offers) keys_for_public)
  accept_keys identity true x = do on_dir (accept_key_offers chan identity x.offers); pure tt

  abbrev pub own_offers :
      KeypairFile → (ℕ → Bytes) → Bool → Str → ChannelDir → Result (List KeyOffer)
  own_offers identity nonces false recipient d = ok []
  own_offers identity nonces true recipient d = make_key_offers chan identity recipient nonces d

  unfoldable pub take_keys : KeypairFile → (ℕ → Bytes) → KeySync → Action Session Outcome
  take_keys identity nonces x = do
    lift (validate_key_offers x)
    policy ← on_dir (reads (read_channel_policy chan))
    let secret = is_private policy.visibility
    lift (ensure (not (secret && not (policy_allows_read policy x.identity))) sender_not_member)
    accept_keys identity secret x
    offers ← on_dir (reads (own_offers identity nonces secret x.identity))
    on_socket (send_keys identity.public_key offers)
    pure carried_on

  unfoldable pub answer_diff : ChunkDiff → Action Session Outcome
  answer_diff x = do
    chunks ← on_node (collect_chunks x.want_chunks)
    on_socket (send (s.batch.to_vec (record { msg_type = codes "chunk_ids"; chunks = chunks })))
    pure carried_on

  unfoldable pub take_envelope : Bytes → Action Session Outcome
  take_envelope t = do
    env ← lift (context (j.from_slice t) invalid_json)
    lift (ensure (env.channel == chan) foreign_envelope)
    lift (verify env)
    on_node (append_message chan env)
    pure stored

  -- One text of the peer.
  unfoldable pub handle_event :
      KeypairFile → (ℕ → Bytes) → Bytes → ClientEvent → Action Session Outcome
  handle_event identity nonces t completed = pure finished
  handle_event identity nonces t failed = fail peer_error
  handle_event identity nonces t (policy_event x) = take_policy x
  handle_event identity nonces t (moderation_event x) = take_moderation x
  handle_event identity nonces t (key_event x) = take_keys identity nonces x
  handle_event identity nonces t (diff_event x) = answer_diff x
  handle_event identity nonces t (want_event x) = do send_messages chan x.ids; pure carried_on
  handle_event identity nonces t other_text = take_envelope t

  unfoldable pub client_loop : KeypairFile → (ℕ → Bytes) → List Frame → ℕ → Action Session ℕ
  client_loop identity nonces [] n = do await []; fail incomplete
  client_loop identity nonces (broken_frame ∷ frames) n = do await frames; fail socket_error
  client_loop identity nonces (other_frame ∷ frames) n = client_loop identity nonces frames n
  client_loop identity nonces (text_frame t ∷ frames) n = do
    await frames
    outcome ← handle_event identity nonces t (classify t)
    continue_with outcome n (client_loop identity nonces frames)

  -- `expected` is what `expected_peer_key` of src/peers.rs gives, and `connected` the outcome of
  -- connecting.
  unfoldable pub sync_from_peer :
      (identity_file : Result KeypairFile) (connected : Result (Unit {0}))
      (expected : Result (Option Str)) (nonces : ℕ → Bytes) (auth_ts now now' : ℕ)
      → Action Session ℕ
  sync_from_peer identity_file connected expected nonces auth_ts now now' = do
    lift (ensure (valid_channel chan) invalid_channel_name)
    chunks ← on_node chunk_summaries
    policies ← on_dir (reads (read_policy_history chan))
    moderations ← on_dir (reads (read_moderation_history chan))
    identity ← lift identity_file
    lift connected
    challenge ← on_socket read_client_challenge
    pin ← lift expected
    lift (verify_auth_challenge challenge (codes "/sync") pin now now')
    sig ←
        lift
          (sign_bytes identity (sync_auth_payload auth_ts chan challenge.nonce challenge.responder))
    on_socket (
        send (
          s.status.to_vec (record {
            msg_type = codes "status";
            version = sync_version;
            channel = chan;
            requester = identity.public_key;
            auth_ts = auth_ts;
            auth_sig = sig;
            policy_events = policies;
            moderation_events = moderations;
            chunks = chunks;
          })))
    (λ x. client_loop identity nonces x.socket.incoming 0 x)
