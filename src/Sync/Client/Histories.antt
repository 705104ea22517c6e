-- ===== src/Sync/Client/Histories.antt =====
-- The whole loop of the asking side of src/sync.rs leaves the policy history longer or as it was.
use embernet.Prelude.{ℕ, Bytes, Str, List, [], ◌∷◌, ◌++◌, Option, ◌+◌, ◌≡◌, codes, str_eq}
use embernet.Fallible.{Result, ok, ensure, Action, invalid_channel_name}
use embernet.Fallible.Actions.{proceed-either}
use embernet.Fallible.Always.{Always}
use embernet.Crates.{Crates, ToVec, HashLaws, VecLaws}
use embernet.Ciphers.{Ciphers}
use embernet.Redb.{Redb}
use embernet.Ndjson.{Json, LineLaws}
use embernet.Proto.{KeypairFile, Message, Envelope, sign_bytes}
use embernet.Keyring.{ChannelKey}
use embernet.KeyOffers.{KeyOfferPayload}
use embernet.Policy.{ChannelPolicy, PolicyEvent, PolicyEventPayload}
use embernet.Moderation.Tombstones.{ModerationState}
use embernet.Moderation.{ModerationEvent, ModerationEventPayload}
use embernet.Sync.Socket.{Frame, text_frame, other_frame, broken_frame, send}
use embernet.Sync.Session.{Session}
use embernet.Sync.{SyncJson, StatusMessage, sync_version, sync_auth_payload}
use embernet.Util.{valid_channel}
use embernet.Challenges.{verify_auth_challenge}
use embernet.PolicyStore.{read_policy_history}
use embernet.ModerationStore.{read_moderation_history}
use embernet.MessageLog.Reading.{chunk_summaries}
use embernet.Sync.Client.Events.{classify}
use embernet.Sync.Client.{
  Outcome, finished, stored, carried_on, handle_event, read_client_challenge, sync_from_peer,
  continue_with, client_loop,
}
use embernet.Sync.Client.Untouched.{chunk_summaries-same}
use embernet.Sync.Client.Growth.{same-Grows, chain-Grows}
use embernet.PolicyStore.{read_history}
use embernet.PolicyStore.Changes.Effects.{FileEndsClean}
use embernet.Sync.Client.Steps.{GrowsIn, stays, handle_event-Grows}

module _ ⦃r : Redb⦄ ⦃s : SyncJson⦄ ⦃k : Crates⦄ ⦃c : Ciphers⦄ ⦃v : ToVec Message⦄
    ⦃p : ToVec PolicyEventPayload⦄ ⦃m : ToVec ModerationEventPayload⦄ ⦃o : ToVec KeyOfferPayload⦄
    ⦃j : Json Envelope⦄ ⦃policy_json : Json PolicyEvent⦄ ⦃cache_json : Json ChannelPolicy⦄
    ⦃moderation_json : Json ModerationEvent⦄ ⦃state_json : Json ModerationState⦄
    ⦃key_json : Json (List ChannelKey)⦄ (chan : Str) where
  module _ (hash : HashLaws k) (vec : VecLaws p) (laws : LineLaws policy_json) where
    module _ (identity : KeypairFile) (nonces : ℕ → Bytes) where
      continued-Grows :
          (outcome : Outcome) (n : ℕ) (go : ℕ → Action Session ℕ) (x y : Session)
          → GrowsIn chan x y
          → ((i : ℕ) → Always (GrowsIn chan) (go i))
          → GrowsIn chan x (continue_with outcome n go y).1
      continued-Grows finished n go x y step rest = step
      continued-Grows stored n go x y step rest =
          chain-Grows chan x.node.dir y.node.dir _ step (rest (n + 1) y)
      continued-Grows carried_on n go x y step rest =
          chain-Grows chan x.node.dir y.node.dir _ step (rest n y)

      client_loop-Grows :
          (frames : List Frame) (n : ℕ)
          → Always (GrowsIn chan) (client_loop chan identity nonces frames n)
      unfolding client_loop
      client_loop-Grows [] n x = stays chan x
      client_loop-Grows (broken_frame ∷ frames) n x = stays chan x
      client_loop-Grows (other_frame ∷ frames) n x = client_loop-Grows frames n x
      client_loop-Grows (text_frame t ∷ frames) n x =
          let x' : Session = record x { socket = record x.socket { incoming = frames } } in
          let y = (handle_event chan identity nonces t (classify t) x').1 in
          let step = handle_event-Grows chan hash vec laws identity nonces t (classify t) x' in
          proceed-either (GrowsIn chan x) _ (handle_event chan identity nonces t (classify t) x').0
            y (λ _ _. step)
            λ outcome _.
              continued-Grows outcome n (client_loop chan identity nonces frames) x y step
                λ i. client_loop-Grows frames i

    -- A session, however it ends.
    pub sync_from_peer-Grows :
        (identity_file : Result KeypairFile) (connected : Result (Unit {0}))
        (expected : Result (Option Str)) (nonces : ℕ → Bytes) (auth_ts now now' : ℕ)
        → Always
            (GrowsIn chan)
            (sync_from_peer chan identity_file connected expected nonces auth_ts now now')
    unfolding sync_from_peer
    sync_from_peer-Grows identity_file connected expected nonces auth_ts now now' x =
        let P : Session → Type 0 = GrowsIn chan x in
        let y : Session = record x { node = (chunk_summaries x.node).1 } in
        let kept = same-Grows chan x.node.dir y.node.dir (chunk_summaries-same x.node) in
        proceed-either P _ (ensure (valid_channel chan) invalid_channel_name) x
          (λ _ _. stays chan x)
          λ _ _.
            proceed-either P _ (chunk_summaries x.node).0 y (λ _ _. kept)
              λ chunks _.
                proceed-either P _ (read_policy_history chan y.node.dir) y (λ _ _. kept)
                  λ policies _.
                    proceed-either P _ (read_moderation_history chan y.node.dir) y (λ _ _. kept)
                      λ moderations _.
                        proceed-either P _ identity_file y (λ _ _. kept)
                          λ identity _.
                            proceed-either P _ connected y (λ _ _. kept)
                              λ _ _.
                                let first = read_client_challenge x.socket in
                                let z : Session = record y { socket = first.1 } in
                                proceed-either P _ first.0 z (λ _ _. kept)
                                  λ challenge _.
                                    proceed-either P _ expected z (λ _ _. kept)
                                      λ pin _.
                                        proceed-either P _
                                          (verify_auth_challenge challenge (codes "/sync") pin now
                                            now')
                                          z (λ _ _. kept)
                                          λ _ _.
                                            proceed-either P _
                                              (sign_bytes identity (
                                                sync_auth_payload auth_ts chan challenge.nonce
                                                  challenge.responder))
                                              z (λ _ _. kept)
                                              λ sig _.
                                                let status : StatusMessage = record {
                                                  msg_type = codes "status";
                                                  version = sync_version;
                                                  channel = chan;
                                                  requester = identity.public_key;
                                                  auth_ts = auth_ts;
                                                  auth_sig = sig;
                                                  policy_events = policies;
                                                  moderation_events = moderations;
                                                  chunks = chunks;
                                                } in
                                                let sent = send (s.status.to_vec status) z.socket in
                                                let w : Session = record z { socket = sent.1 } in
                                                proceed-either P _ sent.0 w (λ _ _. kept)
                                                  λ _ _.
                                                    chain-Grows chan x.node.dir w.node.dir _ kept (
                                                      client_loop-Grows identity nonces
                                                        w.socket.incoming 0 w)

    -- Whatever texts a peer sends, in whatever order, and however the session ends: a policy history
    -- that is read from a file that ends in a newline is still the beginning of the one that is read
    -- afterwards, and the file still ends in a newline.
    pub sync_from_peer-keeps_history :
        (identity_file : Result KeypairFile) (connected : Result (Unit {0}))
        (expected : Result (Option Str)) (nonces : ℕ → Bytes) (auth_ts now now' : ℕ) (x : Session)
        (events : List PolicyEvent)
        → FileEndsClean x.node.dir.policy_log
        → read_history chan x.node.dir.policy_log ≡ ok events
        → let done =
            sync_from_peer chan identity_file connected expected nonces auth_ts now now' x in
          FileEndsClean done.1.node.dir.policy_log
          × ((more : List PolicyEvent) × (read_history chan done.1.node.dir.policy_log
                ≡ ok (events ++ more)))
    sync_from_peer-keeps_history identity_file connected expected nonces auth_ts now now' x events
          clean h =
        let grown =
          sync_from_peer-Grows identity_file connected expected nonces auth_ts now now' x in
        (grown.clean clean, grown.longer events clean h)
