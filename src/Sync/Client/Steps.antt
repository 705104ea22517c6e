-- ===== src/Sync/Client/Steps.antt =====
-- What the asking side of src/sync.rs does to the policy history at one text of the peer.
use embernet.Prelude.{
  ℕ, Bytes, Str, Bool, true, false, List, [], ◌∷◌, refl, codes, ◌==◌, str_eq, Bool-cases, inl, inr,
  not, ◌&&◌,
}
use embernet.Fallible.{
  ensure, context, invalid_json, unexpected_status, foreign_envelope, sender_not_member,
}
use embernet.Fallible.Actions.{proceed-either}
use embernet.Fallible.Always.{Always}
use embernet.Crates.{Crates, ToVec, HashLaws, VecLaws}
use embernet.Ciphers.{Ciphers}
use embernet.Redb.{Redb}
use embernet.Ndjson.{Json, LineLaws}
use embernet.Proto.{KeypairFile, Message, Envelope, verify}
use embernet.Keyring.{ChannelKey}
use embernet.KeyOffers.{KeyOfferPayload, accept_key_offers}
use embernet.Policy.{ChannelPolicy, is_private, policy_allows_read, PolicyEvent, PolicyEventPayload}
use embernet.PolicyStore.{read_channel_policy}
use embernet.PolicyStore.Remote.{append_remote_policy_history}
use embernet.PolicyStore.Conflicts.{save_policy_conflict}
use embernet.Moderation.Tombstones.{ModerationState}
use embernet.Moderation.{ModerationEvent, ModerationEventPayload}
use embernet.ModerationStore.Remote.{append_remote_moderation_history}
use embernet.ModerationStore.Conflicts.{save_moderation_conflict}
use embernet.MessageLog.Messages.{append_message, read_message_by_id}
use embernet.Sync.Socket.{send}
use embernet.Sync.Session.{Session}
use embernet.Sync.{
  SyncJson, PolicySync, ModerationSync, KeySync, ChunkDiff, ChunkBatch, validate_key_offers,
}
use embernet.Sync.Server.KeyExchange.{send_keys}
use embernet.Sync.Server.Inventory.{collect_chunks}
use embernet.Sync.Server.Transfer.{send_messages}
use embernet.Sync.Client.Events.{
  ClientEvent, completed, failed, policy_event, moderation_event, key_event, diff_event, want_event,
  other_text,
}
use embernet.Sync.Client.{
  take_policy, take_moderation, accept_keys, own_offers, take_keys, answer_diff, take_envelope,
  handle_event,
}
use embernet.Sync.Client.Untouched.{
  save_policy_conflict-same, save_moderation_conflict-same, append_remote_moderation-same,
  accept_key_offers-same, append_message-same, read_message_by_id-same, collect_chunks-same,
}
use embernet.Sync.Client.Growth.{Grows, same-Grows, chain-Grows, append_remote-Grows}

module _ ⦃r : Redb⦄ ⦃s : SyncJson⦄ ⦃k : Crates⦄ ⦃c : Ciphers⦄ ⦃v : ToVec Message⦄
    ⦃p : ToVec PolicyEventPayload⦄ ⦃m : ToVec ModerationEventPayload⦄ ⦃o : ToVec KeyOfferPayload⦄
    ⦃j : Json Envelope⦄ ⦃policy_json : Json PolicyEvent⦄ ⦃cache_json : Json ChannelPolicy⦄
    ⦃moderation_json : Json ModerationEvent⦄ ⦃state_json : Json ModerationState⦄
    ⦃key_json : Json (List ChannelKey)⦄ (chan : Str) where
  abbrev pub GrowsIn : Session → Session → Type 0
  GrowsIn x y = Grows chan x.node.dir y.node.dir

  pub stays : (x : Session) → GrowsIn x x
  stays x = same-Grows chan x.node.dir x.node.dir refl

  module _ (hash : HashLaws k) (vec : VecLaws p) (laws : LineLaws policy_json) where
    take_policy-Grows : (e : PolicySync) → Always GrowsIn (take_policy chan e)
    unfolding take_policy
    take_policy-Grows e x = elim (Bool-cases (e.status == codes "conflict")) [
      | inl b ↦
          let kept =
            same-Grows chan x.node.dir _ (save_policy_conflict-same chan e.events x.node.dir) in
          rw b (
            proceed-either (GrowsIn x) _ (save_policy_conflict chan e.events x.node.dir).0 _
              (λ _ _. kept) λ _ _. kept)
      | inr b ↦
          let grown = append_remote-Grows chan hash vec laws e.events x.node.dir in
          rw b (
            proceed-either (GrowsIn x) _ (ensure (e.status == codes "update") unexpected_status) x
              (λ _ _. stays x)
              λ _ _.
                proceed-either (GrowsIn x) _
                  (append_remote_policy_history chan e.events x.node.dir).0 _ (λ _ _. grown)
                  λ _ _. grown)
    ]

    take_moderation-Grows : (e : ModerationSync) → Always GrowsIn (take_moderation chan e)
    unfolding take_moderation
    take_moderation-Grows e x = elim (Bool-cases (e.status == codes "conflict")) [
      | inl b ↦
          let kept =
            same-Grows chan x.node.dir _ (save_moderation_conflict-same chan e.events x.node.dir) in
          rw b (
            proceed-either (GrowsIn x) _ (save_moderation_conflict chan e.events x.node.dir).0 _
              (λ _ _. kept) λ _ _. kept)
      | inr b ↦
          let kept =
            same-Grows chan x.node.dir _ (append_remote_moderation-same chan e.events x.node.dir) in
          rw b (
            proceed-either (GrowsIn x) _ (ensure (e.status == codes "update") unexpected_status) x
              (λ _ _. stays x)
              λ _ _.
                proceed-either (GrowsIn x) _
                  (append_remote_moderation_history chan e.events x.node.dir).0 _ (λ _ _. kept)
                  λ _ _. kept)
    ]

    accept_keys-Grows :
        (identity : KeypairFile) (secret : Bool) (e : KeySync)
        → Always GrowsIn (accept_keys chan identity secret e)
    accept_keys-Grows identity false e x = stays x
    accept_keys-Grows identity true e x =
        let kept =
          same-Grows chan x.node.dir _ (accept_key_offers-same chan identity e.offers x.node.dir) in
        proceed-either (GrowsIn x) _ (accept_key_offers chan identity e.offers x.node.dir).0 _
          (λ _ _. kept) λ _ _. kept

    take_keys-Grows :
        (identity : KeypairFile) (nonces : ℕ → Bytes) (e : KeySync)
        → Always GrowsIn (take_keys chan identity nonces e)
    unfolding take_keys
    take_keys-Grows identity nonces e x =
        let P : Session → Type 0 = GrowsIn x in
        proceed-either P _ (validate_key_offers e) x (λ _ _. stays x)
          λ _ _.
            proceed-either P _ (read_channel_policy chan x.node.dir) x (λ _ _. stays x)
              λ policy _.
                let secret = is_private policy.visibility in
                let kept = accept_keys-Grows identity secret e x in
                let y = (accept_keys chan identity secret e x).1 in
                proceed-either P _
                  (ensure (not (secret && not (policy_allows_read policy e.identity)))
                    sender_not_member)
                  x (λ _ _. stays x)
                  λ _ _.
                    proceed-either P _ (accept_keys chan identity secret e x).0 y (λ _ _. kept)
                      λ _ _.
                        proceed-either P _
                          (own_offers chan identity nonces secret e.identity y.node.dir) y
                          (λ _ _. kept)
                          λ offers _.
                            let sent = send_keys identity.public_key offers y.socket in
                            proceed-either P _ sent.0 (record y { socket = sent.1 }) (λ _ _. kept)
                              λ _ _. kept

    answer_diff-Grows : (e : ChunkDiff) → Always GrowsIn (answer_diff chan e)
    unfolding answer_diff
    answer_diff-Grows e x =
        let kept = same-Grows chan x.node.dir _ (collect_chunks-same e.want_chunks x.node) in
        proceed-either (GrowsIn x) _ (collect_chunks e.want_chunks x.node).0 _ (λ _ _. kept)
          λ chunks _.
            let y : Session = record x { node = (collect_chunks e.want_chunks x.node).1 } in
            let batch : ChunkBatch = record { msg_type = codes "chunk_ids"; chunks = chunks } in
            let sent = send (s.batch.to_vec batch) y.socket in
            proceed-either (GrowsIn x) _ sent.0 (record y { socket = sent.1 }) (λ _ _. kept)
              λ _ _. kept

    send_messages-Grows : (ids : List Str) → Always GrowsIn (send_messages chan ids)
    unfolding send_messages
    send_messages-Grows [] x = stays x
    send_messages-Grows (id ∷ ids) x =
        let kept = same-Grows chan x.node.dir _ (read_message_by_id-same chan id x.node) in
        proceed-either (GrowsIn x) _ (read_message_by_id chan id x.node).0 _ (λ _ _. kept)
          λ env _.
            let y : Session = record x { node = (read_message_by_id chan id x.node).1 } in
            proceed-either (GrowsIn x) _ (send (j.to_vec env) x.socket).0
              (record y { socket = (send (j.to_vec env) x.socket).1 }) (λ _ _. kept)
              λ _ _.
                let z : Session = record y { socket = (send (j.to_vec env) x.socket).1 } in
                chain-Grows chan x.node.dir z.node.dir _ kept (send_messages-Grows ids z)

    take_envelope-Grows : (t : Bytes) → Always GrowsIn (take_envelope chan t)
    unfolding take_envelope
    take_envelope-Grows t x =
        let P : Session → Type 0 = GrowsIn x in
        proceed-either P _ (context (j.from_slice t) invalid_json) x (λ _ _. stays x)
          λ env _.
            let kept = same-Grows chan x.node.dir _ (append_message-same chan env x.node) in
            proceed-either P _ (ensure (env.channel == chan) foreign_envelope) x (λ _ _. stays x)
              λ _ _.
                proceed-either P _ (verify env) x (λ _ _. stays x)
                  λ _ _.
                    proceed-either P _ (append_message chan env x.node).0 _ (λ _ _. kept)
                      λ _ _. kept

    module _ (identity : KeypairFile) (nonces : ℕ → Bytes) where
      pub handle_event-Grows :
          (t : Bytes) (e : ClientEvent) → Always GrowsIn (handle_event chan identity nonces t e)
      unfolding handle_event
      handle_event-Grows t completed x = stays x
      handle_event-Grows t failed x = stays x
      handle_event-Grows t (policy_event e) x = take_policy-Grows e x
      handle_event-Grows t (moderation_event e) x = take_moderation-Grows e x
      handle_event-Grows t (key_event e) x = take_keys-Grows identity nonces e x
      handle_event-Grows t (diff_event e) x = answer_diff-Grows e x
      handle_event-Grows t (want_event e) x =
          let kept = send_messages-Grows e.ids x in
          proceed-either (GrowsIn x) _ (send_messages chan e.ids x).0 _ (λ _ _. kept) λ _ _. kept
      handle_event-Grows t other_text x = take_envelope-Grows t x
