-- ===== src/Sync/Server.antt =====
-- The serving side of a synchronisation in src/sync.rs: `run_sync`. The state is the node's channels
-- and the socket; the readings of the clock and the random bytes are arguments, and what
-- `keys/identity.json` holds when it is read.
pub mod Inventory
pub mod Transfer
pub mod Membership
pub mod Admission
pub mod Uploads
pub mod Convergence
pub mod Completeness
pub mod Reconciliation
pub mod KeyExchange
use embernet.Prelude.{
  ℕ, Bytes, Str, Bool, true, false, ◌&&◌, ◌||◌, not, codes, List, [], ◌∷◌, Option, none, some,
  length, ltb, ◌==◌, nat_eq, str_eq, is_empty, if◌then◌else◌,
}
use embernet.Fallible.{
  Result, ok, err, ensure, context, Action, reads, lift, pure, fail, writes, invalid_json,
  invalid_channel_name, not_text, unexpected_type, stale_signature, expired_challenge,
  requester_not_member, policy_fork, moderation_fork, server_not_member, wrong_key_identity,
  sender_not_member, keys_for_public,
}
use embernet.Fallible.Checks
use embernet.Fallible.Actions.{◌>>=◌, ◌>>◌}
use embernet.Crates.{Crates, ToVec}
use embernet.Ciphers.{Ciphers}
use embernet.Redb.{Redb}
use embernet.Ndjson.{Json}
use embernet.I64.{is_stale, lt_i64}
use embernet.Util.{valid_channel}
use embernet.Proto.{KeypairFile, Message, Envelope, verify_bytes}
use embernet.Challenges.{AuthChallenge, make_auth_challenge}
use embernet.Channel.{ChannelDir}
use embernet.Keyring.{ChannelKey}
use embernet.KeyOffers.{KeyOffer, KeyOfferPayload, make_key_offers, accept_key_offers}
use embernet.Policy.{ChannelPolicy, is_private, policy_allows_read, PolicyEvent, PolicyEventPayload}
use embernet.Policy.History.Prefix.{is_policy_prefix}
use embernet.PolicyStore.{read_policy_history, read_channel_policy}
use embernet.PolicyStore.Remote.Plan.{validate_policy_history}
use embernet.PolicyStore.Remote.{append_remote_policy_history}
use embernet.PolicyStore.Conflicts.{save_policy_conflict}
use embernet.Moderation.Tombstones.{ModerationState}
use embernet.Moderation.{ModerationEvent, ModerationEventPayload}
use embernet.Moderation.Prefix.{is_moderation_prefix}
use embernet.ModerationStore.{validate_moderation_history, read_moderation_history}
use embernet.ModerationStore.Remote.{append_remote_moderation_history}
use embernet.ModerationStore.Conflicts.{save_moderation_conflict}
use embernet.MessageLog.Messages.{IndexedDir}
use embernet.Sync.Socket.{
  Frame, text_frame, other_frame, broken_frame, Socket, text_of, next, next_text, send,
}
use embernet.Sync.Session.{Session, on_dir, on_socket, within, Connection, on_connection}
use embernet.Sync.{
  SyncJson, StatusMessage, PolicySync, ModerationSync, KeySync, sync_auth_payload, check_limits,
  validate_key_offers,
}
use embernet.Sync.Server.Inventory.{compare_buckets}
use embernet.Sync.Server.Transfer.{exchange_messages}
use embernet.Sync.Server.Reconciliation.{reconcile_policy, reconcile_moderation}
use embernet.Sync.Server.KeyExchange.{exchange_keys}

module _ ⦃s : SyncJson⦄ where
  unfoldable pub read_status : Action Socket StatusMessage
  read_status = do
    frame ← next
    t ← lift (text_of frame)
    status ← lift (context (s.status.from_slice t) invalid_json)
    lift (ensure (status.msg_type == codes "status") unexpected_type)
    pure status

module _ ⦃k : Crates⦄ where
  -- That the status is recent and answers the challenge.
  unfoldable pub authenticate : AuthChallenge → StatusMessage → ℕ → ℕ → Result (Unit {0})
  authenticate c status now now' =
      Checks.◌>>◌ (ensure (not (is_stale now status.auth_ts)) stale_signature) (
        Checks.◌>>◌ (ensure (not (lt_i64 c.expires now')) expired_challenge) (
          verify_bytes status.requester status.auth_sig
            (sync_auth_payload status.auth_ts status.channel c.nonce c.responder)))

module _ ⦃r : Redb⦄ ⦃s : SyncJson⦄ ⦃k : Crates⦄ ⦃c : Ciphers⦄ ⦃v : ToVec Message⦄
    ⦃p : ToVec PolicyEventPayload⦄ ⦃m : ToVec ModerationEventPayload⦄ ⦃o : ToVec KeyOfferPayload⦄
    ⦃j : Json Envelope⦄ ⦃policy_json : Json PolicyEvent⦄ ⦃cache_json : Json ChannelPolicy⦄
    ⦃moderation_json : Json ModerationEvent⦄ ⦃state_json : Json ModerationState⦄
    ⦃key_json : Json (List ChannelKey)⦄ (identity_file : Result KeypairFile) (nonces : ℕ → Bytes)
    (iteration : List Str → List Str) where
  -- What follows on a status that has been accepted.
  unfoldable pub serve : StatusMessage → Action Session (Unit {0})
  serve status = do
    reconcile_policy status.channel status
    reconcile_moderation status.channel status
    exchange_keys status.channel identity_file nonces status.requester
    chunks ← compare_buckets status.chunks
    exchange_messages status.channel iteration chunks

  -- What follows on the challenge.
  unfoldable pub answer_status : AuthChallenge → (now now' : ℕ) → Action Connection (Unit {0})
  answer_status c now now' = do
    status ← on_connection read_status
    lift (check_limits status)
    lift (ensure (valid_channel status.channel) invalid_channel_name)
    lift (authenticate c status now now')
    within status.channel (serve status)

  unfoldable pub run_sync :
      KeypairFile → (raw : Bytes) (made_at now now' : ℕ) → Action Connection (Unit {0})
  run_sync identity raw made_at now now' = do
    c ← lift (make_auth_challenge identity (codes "/sync") raw made_at)
    on_connection (send (s.challenge.to_vec c))
    answer_status c now now'
