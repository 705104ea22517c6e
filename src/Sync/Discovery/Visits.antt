-- ===== src/Sync/Discovery/Visits.antt =====
-- A synchronisation of all channels of src/sync.rs keeps every policy history.
use embernet.Prelude.{
  ℕ, Str, List, [], ◌∷◌, ◌++◌, ◌+◌, ◌≡◌, refl, subst, ◌==◌, str_eq, str_beq_iff, Bool-cases, inl,
  inr,
}
use embernet.Fallible.{Result, ok, ensure, invalid_channel_name}
use embernet.Fallible.Actions.{proceed-either}
use embernet.Fallible.Always.{Always}
use embernet.Crates.{Crates, ToVec, HashLaws, VecLaws}
use embernet.Ciphers.{Ciphers}
use embernet.Redb.{Redb}
use embernet.Ndjson.{Json, LineLaws}
use embernet.Util.{valid_channel}
use embernet.Proto.{Message, Envelope}
use embernet.Channel.{ChannelDir, create_channel}
use embernet.Keyring.{ChannelKey}
use embernet.KeyOffers.{KeyOfferPayload}
use embernet.Policy.{ChannelPolicy, PolicyEvent, PolicyEventPayload}
use embernet.PolicyStore.{read_history}
use embernet.PolicyStore.Changes.Effects.{FileEndsClean}
use embernet.Moderation.Tombstones.{ModerationState}
use embernet.Moderation.{ModerationEvent, ModerationEventPayload}
use embernet.MessageLog.Messages.{IndexedDir}
use embernet.Sync.Session.{Session, replace}
use embernet.Sync.{SyncJson}
use embernet.Sync.Client.Growth.{Grows, same-Grows, chain-Grows}
use embernet.Sync.Client.Histories.{sync_from_peer-Grows}
use embernet.Sync.Discovery.{Visit, Node, make_channel, visit, visit_all, sync_all_from_peer}

module _ ⦃r : Redb⦄ ⦃s : SyncJson⦄ ⦃k : Crates⦄ ⦃c : Ciphers⦄ ⦃v : ToVec Message⦄
    ⦃p : ToVec PolicyEventPayload⦄ ⦃m : ToVec ModerationEventPayload⦄ ⦃o : ToVec KeyOfferPayload⦄
    ⦃j : Json Envelope⦄ ⦃policy_json : Json PolicyEvent⦄ ⦃cache_json : Json ChannelPolicy⦄
    ⦃moderation_json : Json ModerationEvent⦄ ⦃state_json : Json ModerationState⦄
    ⦃key_json : Json (List ChannelKey)⦄ where
  -- In every channel the history has grown or is as it was.
  abbrev AllGrow : Node → Node → Type 0
  AllGrow x y = (name : Str) → Grows name (x name).dir (y name).dir

  replace-AllGrow :
      (name : Str) (d : IndexedDir) (x : Node)
      → Grows name (x name).dir d.dir
      → AllGrow x (replace name d x)
  replace-AllGrow name d x grown other = elim (Bool-cases (name == other)) [
    | inl b ↦ rw b (subst (λ n. Grows n (x n).dir d.dir) ((str_beq_iff name other).0 b) grown)
    | inr b ↦ rw b (same-Grows other (x other).dir (x other).dir refl)
  ]

  chain-AllGrow : (x y z : Node) → AllGrow x y → AllGrow y z → AllGrow x z
  chain-AllGrow x y z a b name =
      chain-Grows name (x name).dir (y name).dir (z name).dir (a name) (b name)

  created-Grows : (name : Str) (d : ChannelDir) → Grows name d (create_channel d)
  unfolding create_channel
  created-Grows name d = same-Grows name d (create_channel d) refl

  module _ (hash : HashLaws k) (vec : VecLaws p) (laws : LineLaws policy_json)
      (visits : Str → Visit) where
    visit-AllGrow : (x : Visit) (name : Str) → Always AllGrow (visit x name)
    unfolding visit
    visit-AllGrow x name channels =
        let start : Session = record { node = channels name; socket = x.socket } in
        replace-AllGrow name _ channels (
          sync_from_peer-Grows name hash vec laws x.identity_file x.connected x.expected x.nonces
            x.auth_ts x.now x.now' start)

    visit_all-AllGrow : (names : List Str) (n : ℕ) → Always AllGrow (visit_all visits names n)
    unfolding visit_all
    visit_all-AllGrow [] n x = λ other. same-Grows other (x other).dir (x other).dir refl
    visit_all-AllGrow (name ∷ names) n x =
        let P : Node → Type 0 = AllGrow x in
        let still : AllGrow x x = λ other. same-Grows other (x other).dir (x other).dir refl in
        let made = (make_channel name x).1 in
        let at_made =
          replace-AllGrow name (record (x name) { dir = create_channel (x name).dir }) x
            (created-Grows name (x name).dir) in
        let visited = visit (visits name) name made in
        let at_visited =
          chain-AllGrow x made visited.1 at_made (visit-AllGrow (visits name) name made) in
        proceed-either P _ (ensure (valid_channel name) invalid_channel_name) x (λ _ _. still)
          λ _ _.
            proceed-either P _ visited.0 visited.1 (λ _ _. at_visited)
              λ received _.
                chain-AllGrow x visited.1 (visit_all visits names (n + received) visited.1).1
                  at_visited (visit_all-AllGrow names (n + received) visited.1)

    -- Whatever channels a peer names and whatever it sends for each, and however the synchronisation
    -- of all of them ends: in every channel of the node, a policy history that is read from a file
    -- that ends in a newline is still the beginning of the one that is read afterwards, and the file
    -- still ends in a newline.
    pub sync_all_from_peer-keeps_histories :
        (discovered : Result (List Str)) (x : Node) (name : Str) (events : List PolicyEvent)
        → FileEndsClean (x name).dir.policy_log
        → read_history name (x name).dir.policy_log ≡ ok events
        → let done = sync_all_from_peer discovered visits x in
          FileEndsClean (done.1 name).dir.policy_log
          × ((more : List PolicyEvent) × (read_history name (done.1 name).dir.policy_log
                ≡ ok (events ++ more)))
    unfolding sync_all_from_peer
    sync_all_from_peer-keeps_histories discovered x name events clean h =
        let P : Node → Type 0 = AllGrow x in
        let all : AllGrow x (sync_all_from_peer discovered visits x).1 =
          proceed-either P _ discovered x
            (λ _ _ other. same-Grows other (x other).dir (x other).dir refl)
            λ names _.
              let done = visit_all visits names 0 x in
              proceed-either P _ done.0 done.1 (λ _ _. visit_all-AllGrow names 0 x)
                λ received _. visit_all-AllGrow names 0 x in
        ((all name).clean clean, (all name).longer events clean h)
