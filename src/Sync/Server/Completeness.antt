-- ===== src/Sync/Server/Completeness.antt =====
-- What a successful exchange of messages in `run_sync` of src/sync.rs leaves on the serving side.
use embernet.Prelude.{
  Str, true, codes, List, [], ◌∷◌, ◌≡◌, refl, sym, ap, ◌∙◌, subst, str_eq, contains, Bool-cases,
  inl, inr, ◌⊎◌,
}
use embernet.Fallible.{Result, ok, context, not_indexed}
use embernet.Fallible.Actions.{proceed-eq_ok, proceed-either, step-eq_ok}
use embernet.Crates.{Crates, ToVec}
use embernet.Redb.{Redb, RedbLaws}
use embernet.Ndjson.{Json}
use embernet.Proto.{Message, Envelope}
use embernet.Policy.{ChannelPolicy, PolicyEvent, PolicyEventPayload}
use embernet.MessageLog.Locations.{decode_location}
use embernet.MessageLog.Messages.{IndexedDir, database, read_message_by_id}
use embernet.MessageLog.Messages.Opening.{ensure_index-idle}
use embernet.MessageLog.Messages.Indexing.{Stands, Knows, IsLater}
use embernet.Sync.Socket.{send}
use embernet.Sync.Session.{Session, on_socket}
use embernet.Sync.{SyncJson, WantMessage}
use embernet.Sync.Server.Inventory.{Inventory}
use embernet.Sync.Server.Transfer.{
  all_ids, plan_transfer, send_messages, receive_uploads, exchange_messages,
}
use embernet.Sync.Server.Uploads.{receive_uploads-IsReceived}
use embernet.Sync.Server.Convergence.{IterationLaws, plan_transfer-IsBalanced}

module _ ⦃r : Redb⦄ ⦃s : SyncJson⦄ ⦃k : Crates⦄ ⦃v : ToVec Message⦄ ⦃j : Json Envelope⦄
    (chan : Str) where
  -- Reading a message changes nothing where the index is current for the log.
  read_message_by_id-kept :
      (d : IndexedDir) (id : Str) → Stands d → (read_message_by_id chan id d).1 ≡ d
  unfolding read_message_by_id
  read_message_by_id-kept d id now =
      let P : IndexedDir → Type 0 = λ e. e ≡ d in
      rw (now.has_log, ensure_index-idle d now.log now.db now.has_log now.has_index now.current)
        (proceed-either P _ (context (r.messages.get id (database d).messages) not_indexed) d
          (λ _ _. refl)
          λ value _. proceed-either P _ (decode_location value) d (λ _ _. refl) λ location _. refl)

  send_messages-kept :
      (ids : List Str) (x : Session) → Stands x.node → (send_messages chan ids x).1.node ≡ x.node
  unfolding send_messages
  send_messages-kept [] x now = refl
  send_messages-kept (id ∷ ids) x now =
      let P : Session → Type 0 = λ y. y.node ≡ x.node in
      let read = read_message_by_id chan id x.node in
      let kept = read_message_by_id-kept x.node id now in
      let y : Session = record x { node = read.1 } in
      proceed-either P _ read.0 y (λ _ _. kept)
        λ env _.
          let z : Session = record y { socket = (send (j.to_vec env) y.socket).1 } in
          proceed-either P _ (send (j.to_vec env) y.socket).0 z (λ _ _. kept)
            λ _ _. send_messages-kept ids z (subst Stands (sym kept) now) ∙ kept

  module _ ⦃p : ToVec PolicyEventPayload⦄ ⦃policy_json : Json PolicyEvent⦄
      ⦃cache_json : Json ChannelPolicy⦄ where
    -- If the exchange of messages succeeds on a channel whose index passes the test that it is current
    -- for its log (it has the log's length and the schema), then every id that the client named or that
    -- was in the server's index is one that the server had named itself or is in the index afterwards,
    -- and the index passes that test again.
    pub exchange_messages-IsComplete :
        (iteration : List Str → List Str) (chunks : Inventory) (x y : Session) (id : Str)
        → RedbLaws r
        → IterationLaws iteration
        → Stands x.node
        → exchange_messages chan iteration chunks x ≡ (ok tt, y)
        → (contains id (all_ids chunks.client_chunks) ≡ true) ⊎ Knows x.node id
        → Stands y.node × ((contains id (all_ids chunks.server_chunks) ≡ true) ⊎ Knows y.node id)
    unfolding exchange_messages
    exchange_messages-IsComplete iteration chunks x y id laws order now h named =
        let (plan, planned, h₁) = proceed-eq_ok _ (plan_transfer iteration chunks) x y tt h in
        let balanced = plan_transfer-IsBalanced iteration chunks plan order planned in
        let want : WantMessage = record {
          msg_type = codes "want";
          ids = plan.wanted_from_client;
        } in
        let (_, (x₁, sent, h₂)) = step-eq_ok (on_socket (send (s.want.to_vec want))) _ x y tt h₁ in
        let same₁ = ap (λ (q : Result (Unit {0}) × Session). q.1.node) sent in
        let now₁ = subst Stands same₁ now in
        let (_, (x₂, given, h₃)) = step-eq_ok (send_messages chan plan.to_client) _ x₁ y tt h₂ in
        let same₂ =
          sym (send_messages-kept plan.to_client x₁ now₁)
          ∙ ap (λ (q : Result (Unit {0}) × Session). q.1.node) given in
        let now₂ = subst Stands same₂ now₁ in
        let (n, (x₃, received, h₄)) =
          step-eq_ok (λ z. receive_uploads chan z.socket.incoming plan.wanted_from_client 0 z) _ x₂
            y tt h₃ in
        let got =
          receive_uploads-IsReceived chan x₂.socket.incoming plan.wanted_from_client 0 n x₂ x₃ laws
            balanced.wanted_once now₂ received in
        let same₃ = ap (λ (q : Result (Unit {0}) × Session). q.1.node) h₄ in
        let later =
          subst (λ d. IsLater d y.node) (sym (same₁ ∙ same₂))
            (subst (IsLater x₂.node) same₃ got.later) in
        (
          later.stands,
          elim named [
            | inr known ↦ inr (later.keeps id known)
            | inl asked ↦ elim (Bool-cases (contains id (all_ids chunks.server_chunks))) [
              | inl b ↦ inl b
              | inr b ↦ inr (
                  subst (λ d. Knows d id) same₃
                    (got.all_known id (balanced.wanted id ∙ rw (asked, b) refl)))
            ]
          ],
        )
