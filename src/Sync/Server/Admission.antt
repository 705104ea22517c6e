-- ===== src/Sync/Server/Admission.antt =====
-- What a connection to `run_sync` of src/sync.rs shows to a stranger.
use embernet.Prelude.{
  ℕ, Bytes, Str, true, codes, List, [], ◌∷◌, ◌++◌, ◌≡◌, refl, ◌⊎◌, inl, inr, ◌==◌, str_eq,
  str_beq_iff, Bool-cases, sym, ap, ◌∙◌, false, some,
}
use embernet.Fallible.{Result, ok, ensure, true_of_ensure, invalid_channel_name}
use embernet.Fallible.Actions.{proceed-either}
use embernet.Crates.{Crates, ToVec}
use embernet.Ciphers.{Ciphers}
use embernet.Redb.{Redb}
use embernet.Ndjson.{Json}
use embernet.Util.{valid_channel}
use embernet.Proto.{KeypairFile, Message, Envelope}
use embernet.Challenges.{AuthChallenge, make_auth_challenge}
use embernet.Keyring.{ChannelKey}
use embernet.KeyOffers.{KeyOfferPayload}
use embernet.Policy.{ChannelPolicy, PolicyEvent, PolicyEventPayload}
use embernet.MessageLog.Messages.{IndexedDir}
use embernet.Moderation.Tombstones.{ModerationState}
use embernet.Moderation.{ModerationEvent, ModerationEventPayload}
use embernet.Sync.Socket.{Frame, text_frame, Socket, send, send-cases, send-incoming}
use embernet.Sync.Session.{Session, Connection, within, replace}
use embernet.Sync.{SyncJson, StatusMessage, check_limits}
use embernet.Sync.Server.{read_status, authenticate, serve, answer_status, run_sync}
use embernet.Sync.Server.Membership.{
  IsMember, serve-IsMember, read_status-sent, read_status-IsReceived,
}

module _ ⦃r : Redb⦄ ⦃s : SyncJson⦄ ⦃k : Crates⦄ ⦃c : Ciphers⦄ ⦃v : ToVec Message⦄
    ⦃p : ToVec PolicyEventPayload⦄ ⦃m : ToVec ModerationEventPayload⦄ ⦃o : ToVec KeyOfferPayload⦄
    ⦃j : Json Envelope⦄ ⦃policy_json : Json PolicyEvent⦄ ⦃cache_json : Json ChannelPolicy⦄
    ⦃moderation_json : Json ModerationEvent⦄ ⦃state_json : Json ModerationState⦄
    ⦃key_json : Json (List ChannelKey)⦄ (identity_file : Result KeypairFile) (nonces : ℕ → Bytes)
    (iteration : List Str → List Str) where
  -- All channels are as they were, and at most the challenge has been sent.
  pub record IsHidden (identity : KeypairFile) (raw : Bytes) (made_at : ℕ)
      (before after : Connection) : Type 0 where
    pub same : (name : Str) → after.channels name ≡ before.channels name
    pub only_challenge :
        (after.socket.sent ≡ before.socket.sent)
        ⊎ ((x : AuthChallenge) × (make_auth_challenge identity (codes "/sync") raw made_at ≡ ok x)
            × (after.socket.sent ≡ before.socket.sent ++ s.challenge.to_vec x ∷ []))

  -- The session that is served on a channel, once the status has been read.
  pub record IsServed (status : StatusMessage) (node : IndexedDir) (start : Socket)
      (before after : Connection) : Type 0 where
    pub session : Session
    pub served :
        (serve identity_file nonces iteration status (record { node = node; socket = start })).1
        ≡ session
    pub same_socket : after.socket ≡ session.socket
    pub same_node : after.channels status.channel ≡ session.node
    pub others :
        (name : Str) → (status.channel == name) ≡ false → after.channels name ≡ before.channels name

  -- The first frame of the peer is the status of one that has signed the challenge, recently, for a
  -- valid channel that it may read; and what is sent and changed then is what a session on this channel
  -- sends and changes. `sent` is what had been sent when the status was read.
  pub record IsAdmitted (challenge : AuthChallenge) (now now' : ℕ) (sent : List Bytes)
      (before after : Connection) : Type 0 where
    pub status : StatusMessage
    pub text : Bytes
    pub later : List Frame
    pub start : Socket
    pub received : before.socket.incoming ≡ text_frame text ∷ later
    pub decoded : s.status.from_slice text ≡ some status
    pub limited : check_limits status ≡ ok tt
    pub valid : valid_channel status.channel ≡ true
    pub authentic : authenticate challenge status now now' ≡ ok tt
    pub member : IsMember status.channel status.requester (before.channels status.channel).dir
    pub had_sent : start.sent ≡ sent
    pub session : IsServed status (before.channels status.channel) start before after

  -- All channels and what was sent are as they were.
  abbrev Unchanged : Connection → Connection → Type 0
  Unchanged x y =
      ((name : Str) → y.channels name ≡ x.channels name) × (y.socket.sent ≡ x.socket.sent)

  same_channel :
      (chan : Str) (channels : Str → IndexedDir) (node : IndexedDir) (name : Str)
      → node ≡ channels chan
      → replace chan node channels name ≡ channels name
  same_channel chan channels node name e = elim (Bool-cases (chan == name)) [
    | inl b ↦ rw b (e ∙ ap channels ((str_beq_iff chan name).0 b))
    | inr b ↦ rw b refl
  ]

  within-IsServed :
      (status : StatusMessage) (x : Connection) (start : Socket)
      → IsServed status
          (x.channels status.channel)
          start
          x
          (within status.channel
            (serve identity_file nonces iteration status)
            (record x { socket = start })).1
  within-IsServed status x start = record {
    session =
        (serve identity_file nonces iteration status
          (record { node = x.channels status.channel; socket = start })).1;
    served = refl;
    same_socket = refl;
    same_node = rw ((str_beq_iff status.channel status.channel).1 refl) refl;
    others = λ name other. rw other refl;
  }

  answer_status-IsAdmitted :
      (challenge : AuthChallenge) (now now' : ℕ) (x : Connection)
      → Unchanged x (answer_status identity_file nonces iteration challenge now now' x).1
        ⊎ IsAdmitted challenge now now' x.socket.sent x
            (answer_status identity_file nonces iteration challenge now now' x).1
  unfolding answer_status
  answer_status-IsAdmitted challenge now now' x =
      let P : Connection → Type 0 =
        λ y. Unchanged x y ⊎ IsAdmitted challenge now now' x.socket.sent x y in
      let kept = read_status-sent x.socket in
      let start = (read_status x.socket).1 in
      let refused : P (record x { socket = start }) = inl ((λ _. refl), kept) in
      proceed-either P _ (read_status x.socket).0 _ (λ _ _. refused)
        λ status read.
          proceed-either P _ (check_limits status) _ (λ _ _. refused)
            λ _ limited.
              proceed-either P _ (ensure (valid_channel status.channel) invalid_channel_name) _
                (λ _ _. refused)
                λ _ valid.
                  proceed-either P _ (authenticate challenge status now now') _ (λ _ _. refused)
                    λ _ authentic.
                      let y : Session = record {
                        node = x.channels status.channel;
                        socket = start;
                      } in
                      elim (serve-IsMember identity_file nonces iteration status y) [
                        | inl e ↦ inl (
                          (λ name.
                              same_channel status.channel x.channels _ name
                                (ap (λ (z : Session). z.node) e)),
                          ap (λ (z : Session). z.socket.sent) e ∙ kept,
                        )
                        | inr found ↦
                            let got = read_status-IsReceived x.socket status read in
                            inr (record {
                              status = status;
                              text = got.text;
                              later = got.later;
                              start = start;
                              received = got.received;
                              decoded = got.decoded;
                              limited = limited;
                              valid =
                                  true_of_ensure (valid_channel status.channel) invalid_channel_name
                                    valid;
                              authentic = authentic;
                              member = found;
                              had_sent = kept;
                              session = within-IsServed status x start;
                            })
                      ]

  -- Whoever connects learns nothing but the challenge, and changes nothing in any channel, unless the
  -- first frame that it sends is the status of a requester that has signed the challenge of this very
  -- connection, at a time that is not stale, for a valid channel whose policy lets it read; and then it
  -- meets a session on this channel alone: every other channel stays as it was.
  pub run_sync-discloses :
      (identity : KeypairFile) (raw : Bytes) (made_at now now' : ℕ) (before : Connection)
      → IsHidden identity raw made_at before
          (run_sync identity_file nonces iteration identity raw made_at now now' before).1
        ⊎ ((x : AuthChallenge) × (make_auth_challenge identity (codes "/sync") raw made_at ≡ ok x)
            × IsAdmitted x now now'
                (before.socket.sent ++ s.challenge.to_vec x ∷ [])
                before
                (run_sync identity_file nonces iteration identity raw made_at now now' before).1)
  unfolding run_sync
  run_sync-discloses identity raw made_at now now' before =
      let P : Connection → Type 0 = λ after.
        IsHidden identity raw made_at before after
        ⊎ ((x : AuthChallenge) × (make_auth_challenge identity (codes "/sync") raw made_at ≡ ok x)
            × IsAdmitted x now now' (before.socket.sent ++ s.challenge.to_vec x ∷ []) before
                after) in
      proceed-either P _ (make_auth_challenge identity (codes "/sync") raw made_at) before
        (λ _ _. inl (record { same = λ _. refl; only_challenge = inl refl }))
        λ x made. elim (send-cases (s.challenge.to_vec x) before.socket) [
          | inl (e, failed, sent) ↦
              rw failed (inl (record { same = λ _. refl; only_challenge = inl sent }))
          | inr (done, sent) ↦
              let greeted : Connection = record before {
                socket = (send (s.challenge.to_vec x) before.socket).1;
              } in
              rw done (elim (answer_status-IsAdmitted x now now' greeted) [
                | inl (same, kept) ↦
                    inl (record { same = same; only_challenge = inr (x, made, kept ∙ sent) })
                | inr found ↦ inr (
                  x,
                  made,
                  record {
                    status = found.status;
                    text = found.text;
                    later = found.later;
                    start = found.start;
                    received =
                        sym (send-incoming (s.challenge.to_vec x) before.socket) ∙ found.received;
                    decoded = found.decoded;
                    limited = found.limited;
                    valid = found.valid;
                    authentic = found.authentic;
                    member = found.member;
                    had_sent = found.had_sent ∙ sent;
                    session = record {
                      session = found.session.session;
                      served = found.session.served;
                      same_socket = found.session.same_socket;
                      same_node = found.session.same_node;
                      others = found.session.others;
                    };
                  },
                )
              ])
        ]
