-- ===== src/Sync/Client/Untouched.antt =====
-- The operations of src/store.rs and src/crypto.rs that src/sync.rs calls and that leave the policy
-- history of the channel alone, whether they succeed or fail.
use embernet.Prelude.{ℕ, Str, Bool, true, false, List, [], ◌∷◌, ◌≡◌, refl, arith}
use embernet.Fallible.Always.{Always}
use embernet.Crates.{Crates, ToVec}
use embernet.Ciphers.{Ciphers}
use embernet.Redb.{Redb}
use embernet.Ndjson.{Json}
use embernet.Proto.{KeypairFile, Message, Envelope}
use embernet.Channel.{ChannelDir, create_channel}
use embernet.Keyring.{ChannelKey}
use embernet.KeyOffers.{KeyOffer, KeyOfferPayload, accept_key_offers}
use embernet.Policy.{ChannelPolicy, PolicyEvent, PolicyEventPayload}
use embernet.PolicyStore.Conflicts.{save_policy_conflict}
use embernet.Moderation.Tombstones.{ModerationState}
use embernet.Moderation.{ModerationEvent, ModerationEventPayload}
use embernet.ModerationStore.Remote.{append_remote_moderation_history}
use embernet.ModerationStore.Conflicts.{save_moderation_conflict}
use embernet.MessageLog.Messages.{
  IndexedDir, create_in, ensure_index, append_record, store_once, append_message,
  read_message_by_id,
}
use embernet.MessageLog.Reading.{chunk_ids, chunk_summaries}
use embernet.Sync.{SyncJson}
use embernet.Sync.Server.Inventory.{collect_chunks}

-- The file of the policy history is the same.
abbrev pub SamePolicies : ChannelDir → ChannelDir → Type 0
SamePolicies d d' = d'.policy_log ≡ d.policy_log

abbrev pub SameIn : ⦃r : Redb⦄ → IndexedDir → IndexedDir → Type 0
SameIn s t = SamePolicies s.dir t.dir

module _ ⦃k : Crates⦄ ⦃p : ToVec PolicyEventPayload⦄ ⦃policy_json : Json PolicyEvent⦄
    (chan : Str) where
  pub save_policy_conflict-same :
      (events : List PolicyEvent) → Always SamePolicies (save_policy_conflict chan events)
  unfolding save_policy_conflict
  save_policy_conflict-same events d = ground arith

  module _ ⦃m : ToVec ModerationEventPayload⦄ ⦃moderation_json : Json ModerationEvent⦄ where
    pub save_moderation_conflict-same :
        (events : List ModerationEvent) → Always SamePolicies (save_moderation_conflict chan events)
    unfolding save_moderation_conflict
    save_moderation_conflict-same events d = ground arith

    pub append_remote_moderation-same :
        ⦃state_json : Json ModerationState⦄
        → (events : List ModerationEvent)
        → Always SamePolicies (append_remote_moderation_history chan events)
    unfolding append_remote_moderation_history
    append_remote_moderation-same events d = ground arith

module _ ⦃k : Crates⦄ ⦃c : Ciphers⦄ ⦃o : ToVec KeyOfferPayload⦄
    ⦃key_json : Json (List ChannelKey)⦄ where
  pub accept_key_offers-same :
      (chan : Str) (recipient : KeypairFile) (offers : List KeyOffer)
      → Always SamePolicies (accept_key_offers chan recipient offers)
  unfolding accept_key_offers
  accept_key_offers-same chan recipient offers d = ground arith

module _ ⦃r : Redb⦄ ⦃k : Crates⦄ ⦃v : ToVec Message⦄ ⦃j : Json Envelope⦄ where
  ensure_index-same : Always SameIn ensure_index
  unfolding ensure_index
  ensure_index-same s = ground arith

  append_record-same : (env : Envelope) → Always SameIn (append_record env)
  unfolding append_record
  append_record-same env s = ground arith

  store_once-same : (env : Envelope) → Always SameIn (store_once env)
  unfolding store_once
  store_once-same env s = ground (arith, append_record-same env s)

  create_in-same : (there : Bool) → Always SameIn (create_in there)
  unfolding create_channel
  create_in-same false s = refl
  create_in-same true s = refl

  pub append_message-same :
      ⦃p : ToVec PolicyEventPayload⦄
      → ⦃policy_json : Json PolicyEvent⦄ → ⦃cache_json : Json ChannelPolicy⦄
      → (chan : Str) (env : Envelope) → Always SameIn (append_message chan env)
  unfolding append_message
  append_message-same chan env s =
      let t = (create_in s.dir.exists s).1 in
      let u = (ensure_index t).1 in
      ground (arith, create_in-same s.dir.exists s, ensure_index-same t, store_once-same env u)

  pub read_message_by_id-same : (chan id : Str) → Always SameIn (read_message_by_id chan id)
  unfolding read_message_by_id
  read_message_by_id-same chan id s = ground (arith, ensure_index-same s)

  chunk_ids-same : (i : ℕ) → Always SameIn (chunk_ids i)
  unfolding chunk_ids
  chunk_ids-same i s = ground (arith, ensure_index-same s)

  pub collect_chunks-same : ⦃x : SyncJson⦄ → (l : List ℕ) → Always SameIn (collect_chunks l)
  unfolding collect_chunks
  collect_chunks-same [] s = refl
  collect_chunks-same (i ∷ l) s =
      ground (arith, chunk_ids-same i s, collect_chunks-same l (chunk_ids i s).1)

  pub chunk_summaries-same : Always SameIn chunk_summaries
  unfolding chunk_summaries
  chunk_summaries-same s = ground (arith, ensure_index-same s)
