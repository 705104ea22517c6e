-- ===== src/Sync/Server/Membership.antt =====
-- Who is served by `run_sync` of src/sync.rs: what reading a status shows, and that a session which
-- changes or sends anything is that of a member.
use embernet.Prelude.{
  ℕ, Bytes, Str, true, codes, List, ◌∷◌, ◌≡◌, refl, ◌⊎◌, inl, inr, ◌==◌, str_eq, ap, ◌∙◌, some,
}
use embernet.Fallible.{
  Result, Result-cases, ok, ensure, true_of_ensure, requester_not_member, context, invalid_json,
  unexpected_type, context-eq_ok, ok-injective,
}
use embernet.Fallible.Checks.{bind-eq_ok}
use embernet.Fallible.Actions.{proceed-either, proceed-eq_ok, step-eq_ok}
use embernet.Crates.{Crates, ToVec}
use embernet.Ciphers.{Ciphers}
use embernet.Redb.{Redb}
use embernet.Ndjson.{Json}
use embernet.Proto.{KeypairFile, Message, Envelope}
use embernet.Channel.{ChannelDir}
use embernet.Keyring.{ChannelKey}
use embernet.KeyOffers.{KeyOfferPayload}
use embernet.Policy.{ChannelPolicy, policy_allows_read, PolicyEvent, PolicyEventPayload}
use embernet.PolicyStore.{read_policy_history, read_channel_policy}
use embernet.PolicyStore.Remote.Plan.{validate_policy_history}
use embernet.Moderation.Tombstones.{ModerationState}
use embernet.Moderation.{ModerationEvent, ModerationEventPayload}
use embernet.Sync.Socket.{
  Frame, text_frame, Socket, text_of, next_frame, later_frames, next, next_frame-text,
}
use embernet.Sync.Session.{Session}
use embernet.Sync.{SyncJson, StatusMessage}
use embernet.Sync.Server.{read_status, serve}
use embernet.Sync.Server.Reconciliation.{require_member, reconcile_policy}

module _ ⦃r : Redb⦄ ⦃s : SyncJson⦄ ⦃k : Crates⦄ ⦃p : ToVec PolicyEventPayload⦄
    ⦃policy_json : Json PolicyEvent⦄ ⦃cache_json : Json ChannelPolicy⦄ where
  -- The requester may read the channel.
  pub record IsMember (chan requester : Str) (d : ChannelDir) : Type 0 where
    pub policy : ChannelPolicy
    pub in_force : read_channel_policy chan d ≡ ok policy
    pub allowed : policy_allows_read policy requester ≡ true

  require_member-IsMember :
      (chan requester : Str) (d : ChannelDir)
      → require_member chan requester d ≡ ok tt
      → IsMember chan requester d
  unfolding require_member
  require_member-IsMember chan requester d h =
      let (policy, in_force, allowed) = bind-eq_ok (read_channel_policy chan d) _ h in
      record {
        policy = policy;
        in_force = in_force;
        allowed = true_of_ensure (policy_allows_read policy requester) requester_not_member allowed;
      }

module _ ⦃r : Redb⦄ ⦃s : SyncJson⦄ ⦃k : Crates⦄ ⦃c : Ciphers⦄ ⦃v : ToVec Message⦄
    ⦃p : ToVec PolicyEventPayload⦄ ⦃m : ToVec ModerationEventPayload⦄ ⦃o : ToVec KeyOfferPayload⦄
    ⦃j : Json Envelope⦄ ⦃policy_json : Json PolicyEvent⦄ ⦃cache_json : Json ChannelPolicy⦄
    ⦃moderation_json : Json ModerationEvent⦄ ⦃state_json : Json ModerationState⦄
    ⦃key_json : Json (List ChannelKey)⦄ (identity_file : Result KeypairFile) (nonces : ℕ → Bytes)
    (iteration : List Str → List Str) where
  -- A session either leaves everything as it was, or is that of a member.
  pub serve-IsMember :
      (status : StatusMessage) (x : Session)
      → ((serve identity_file nonces iteration status x).1 ≡ x)
        ⊎ IsMember status.channel status.requester x.node.dir
  unfolding serve reconcile_policy
  serve-IsMember status x =
      let chan = status.channel in
      elim (Result-cases (validate_policy_history chan status.policy_events)) [
        | inr (e, h) ↦ inl (rw h refl)
        | inl (_, h) ↦ elim (Result-cases (read_policy_history chan x.node.dir)) [
          | inr (e, h₂) ↦ inl (rw (h, h₂) refl)
          | inl (local, h₂) ↦
              elim (Result-cases (require_member chan status.requester x.node.dir)) [
                | inr (e, h₃) ↦ inl (rw (h, h₂, h₃) refl)
                | inl (_, h₃) ↦ inr (require_member-IsMember chan status.requester x.node.dir h₃)
              ]
        ]
      ]

module _ ⦃s : SyncJson⦄ where
  pub read_status-sent : (x : Socket) → (read_status x).1.sent ≡ x.sent
  unfolding read_status next
  read_status-sent x =
      let P : Socket → Type 0 = λ y. y.sent ≡ x.sent in
      proceed-either P _ (next_frame x.incoming) _ (λ _ _. refl)
        λ frame _.
          proceed-either P _ (text_of frame) _ (λ _ _. refl)
            λ t _.
              proceed-either P _ (context (s.status.from_slice t) invalid_json) _ (λ _ _. refl)
                λ status _.
                  proceed-either P _ (ensure (status.msg_type == codes "status") unexpected_type) _
                    (λ _ _. refl) λ _ _. refl

  -- A status that has been read is the first frame that the peer has sent.
  pub record IsReceived (frames : List Frame) (status : StatusMessage) : Type 0 where
    pub text : Bytes
    pub later : List Frame
    pub received : frames ≡ text_frame text ∷ later
    pub decoded : s.status.from_slice text ≡ some status

  pub read_status-IsReceived :
      (x : Socket) (status : StatusMessage)
      → (read_status x).0 ≡ ok status
      → IsReceived x.incoming status
  unfolding read_status next
  read_status-IsReceived x status h =
      let y = (read_status x).1 in
      let (frame, (u, there, h₁)) =
        step-eq_ok next _ x y status (ap (λ (q : Result StatusMessage). (q, y)) h) in
      let (t, is_text, h₂) = proceed-eq_ok _ (text_of frame) u y status h₁ in
      let (found, decoded, h₃) =
        proceed-eq_ok _ (context (s.status.from_slice t) invalid_json) u y status h₂ in
      let (_, _, h₄) =
        proceed-eq_ok _ (ensure (found.msg_type == codes "status") unexpected_type) u y status h₃ in
      let taken : next_frame x.incoming ≡ ok frame =
        ap (λ (q : Result Frame × Socket). q.0) there in
      record {
        text = t;
        later = later_frames x.incoming;
        received = next_frame-text x.incoming frame t taken is_text;
        decoded =
            context-eq_ok (s.status.from_slice t) invalid_json found decoded
            ∙ ap some
                (ok-injective found status (ap (λ (q : Result StatusMessage × Socket). q.0) h₄));
      }
