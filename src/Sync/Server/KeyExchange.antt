-- ===== src/Sync/Server/KeyExchange.antt =====
-- How `run_sync` of src/sync.rs exchanges the keys of a private channel.
use embernet.Prelude.{
  ℕ, Bytes, Str, Bool, true, false, ◌&&◌, not, codes, List, [], Option, none, some, ◌==◌, nat_eq,
  str_eq, is_empty,
}
use embernet.Fallible.{
  Result, ok, ensure, context, Action, reads, lift, pure, invalid_json, unexpected_type,
  requester_not_member, server_not_member, wrong_key_identity, sender_not_member, keys_for_public,
}
use embernet.Fallible.Checks
use embernet.Fallible.Actions.{◌>>=◌, ◌>>◌}
use embernet.Crates.{Crates, ToVec}
use embernet.Ciphers.{Ciphers}
use embernet.Redb.{Redb}
use embernet.Ndjson.{Json}
use embernet.Proto.{KeypairFile}
use embernet.Channel.{ChannelDir}
use embernet.Keyring.{ChannelKey}
use embernet.KeyOffers.{KeyOffer, KeyOfferPayload, make_key_offers, accept_key_offers}
use embernet.Policy.{ChannelPolicy, is_private, policy_allows_read, PolicyEvent, PolicyEventPayload}
use embernet.PolicyStore.{read_channel_policy}
use embernet.Sync.Socket.{Socket, next_text, send}
use embernet.Sync.Session.{Session, on_dir, on_socket}
use embernet.Sync.{SyncJson, KeySync, validate_key_offers}

module _ ⦃s : SyncJson⦄ where
  unfoldable pub read_key_sync : Action Socket KeySync
  read_key_sync = do
    t ← next_text
    sync ← lift (context (s.keys.from_slice t) invalid_json)
    lift (ensure (sync.msg_type == codes "key_sync") unexpected_type)
    pure sync

  abbrev pub send_keys : Str → List KeyOffer → Action Socket (Unit {0})
  send_keys identity offers =
      send (
        s.keys.to_vec
          (record { msg_type = codes "key_sync"; identity = identity; offers = offers }))

module _ ⦃r : Redb⦄ ⦃s : SyncJson⦄ ⦃k : Crates⦄ ⦃p : ToVec PolicyEventPayload⦄
    ⦃policy_json : Json PolicyEvent⦄ ⦃cache_json : Json ChannelPolicy⦄ (chan : Str) where
  module _ ⦃c : Ciphers⦄ ⦃o : ToVec KeyOfferPayload⦄ ⦃key_json : Json (List ChannelKey)⦄
      (identity_file : Result KeypairFile) (nonces : ℕ → Bytes) where
    -- The identity that offers and takes keys, where the channel is private.
    abbrev pub key_identity : ChannelPolicy → Bool → Result (Option KeypairFile)
    key_identity policy false = ok none
    key_identity policy true = Checks.◌>>=◌ identity_file λ identity.
        Checks.◌>>◌ (ensure (policy_allows_read policy identity.public_key) server_not_member)
          (ok (some identity))

    abbrev pub offers_by : Option KeypairFile → Str → ChannelDir → Result (List KeyOffer)
    offers_by none requester d = ok []
    offers_by (some identity) requester d = make_key_offers chan identity requester nonces d

    abbrev pub public_key_of : Option KeypairFile → Str
    public_key_of none = []
    public_key_of (some identity) = identity.public_key

    abbrev pub take_keys : Option KeypairFile → List KeyOffer → Action Session (Unit {0})
    take_keys none offers = lift (ensure (is_empty offers) keys_for_public)
    take_keys (some identity) offers = do on_dir (accept_key_offers chan identity offers); pure tt

    -- The part of `run_sync` that exchanges the keys of a private channel.
    unfoldable pub exchange_keys : Str → Action Session (Unit {0})
    exchange_keys requester = do
      policy ← on_dir (reads (read_channel_policy chan))
      lift (ensure (policy_allows_read policy requester) requester_not_member)
      identity ← lift (key_identity policy (is_private policy.visibility))
      offers ← on_dir (reads (offers_by identity requester))
      on_socket (send_keys (public_key_of identity) offers)
      sync ← on_socket read_key_sync
      lift (ensure (sync.identity == requester) wrong_key_identity)
      lift (
          ensure
            (not (is_private policy.visibility && not (policy_allows_read policy sync.identity)))
            sender_not_member)
      lift (validate_key_offers sync)
      take_keys identity sync.offers
