-- ===== src/ModerationStore/Reading.antt =====
-- What reading the moderation files of src/store.rs gives after events were written to them.
use embernet.Prelude.{Bytes, Str, List, [], ◌++◌, Option, none, some, ◌≡◌, ap, sym, ◌∙◌, refl}
use embernet.Fallible.{ok, ok-injective}
use embernet.Fallible.Checks.{bind-eq_ok}
use embernet.Crates.{Crates, ToVec}
use embernet.Ndjson.{Json, LineLaws, read_ndjson, encode_lines}
use embernet.Ndjson.Laws.{read-encode, read-append}
use embernet.Channel.{ChannelDir, open_lock, append_file}
use embernet.Policy.{PolicyEvent, PolicyEventPayload}
use embernet.PolicyStore.{read_policy_history}
use embernet.PolicyStore.Changes.Effects.{FileEndsClean}
use embernet.Moderation.Tombstones.{ModerationState, no_tombstones}
use embernet.Moderation.{
  ModerationEvent, ModerationEventPayload, replay_moderation, derive_moderation,
}
use embernet.ModerationStore.{
  validate_moderation_history, read_moderation, read_moderation_history_unlocked,
  read_moderation_history, moderation_state,
}

module _ ⦃k : Crates⦄ ⦃m : ToVec ModerationEventPayload⦄ ⦃j : ToVec PolicyEventPayload⦄
    ⦃policy_json : Json PolicyEvent⦄ ⦃moderation_json : Json ModerationEvent⦄ (chan : Str) where
  -- A history that is read derives a state, where the policy history can be read.
  pub read_moderation-derives :
      (file : Option Bytes) (d : ChannelDir) (policies : List PolicyEvent)
      (events : List ModerationEvent)
      → read_policy_history chan d ≡ ok policies
      → read_moderation chan file d ≡ ok events
      → (s : ModerationState) × (derive_moderation chan policies events ≡ ok s)
  unfolding read_moderation validate_moderation_history
  read_moderation-derives none d policies events p h = (
    no_tombstones,
    rw (← ok-injective [] events h) (unfold derive_moderation replay_moderation in refl),
  )
  read_moderation-derives (some bytes) d policies events p h =
      let (xs, r, h') = bind-eq_ok (read_ndjson bytes) _ h in
      let (s, v, h'') = bind-eq_ok (validate_moderation_history chan xs d) _ h' in
      (s, ap (derive_moderation chan policies) (sym (ok-injective xs events h'')) ∙ rw p at v)

  pub read_moderation_of_ndjson :
      (bytes : Bytes) (d : ChannelDir) (events : List ModerationEvent) (s : ModerationState)
      → read_ndjson bytes ≡ ok events
      → validate_moderation_history chan events d ≡ ok s
      → read_moderation chan (some bytes) d ≡ ok events
  unfolding read_moderation
  read_moderation_of_ndjson bytes d events s r v = rw (r, v)

  -- Events that are appended to a clean file are read behind what was there.
  pub read_moderation-append :
      (file : Option Bytes) (d : ChannelDir) (events more : List ModerationEvent)
      (s : ModerationState)
      → LineLaws moderation_json
      → FileEndsClean file
      → read_moderation chan file d ≡ ok events
      → validate_moderation_history chan (events ++ more) d ≡ ok s
      → read_moderation chan (append_file file (encode_lines more)) d ≡ ok (events ++ more)
  unfolding read_moderation
  read_moderation-append none d events more s laws clean h v =
      let e = ok-injective [] events h in
      read_moderation_of_ndjson _ d (events ++ more) s (rw (← e) (read-encode laws more)) v
  read_moderation-append (some bytes) d events more s laws clean h v =
      let (xs, r, h') = bind-eq_ok (read_ndjson bytes) _ h in
      let (_, _, h'') = bind-eq_ok (validate_moderation_history chan xs d) _ h' in
      read_moderation_of_ndjson _ d (events ++ more) s
        (read-append laws bytes events more clean (r ∙ ap ok (ok-injective xs events h''))) v

  pub moderation_state_of_history :
      (d : ChannelDir) (events : List ModerationEvent) (s : ModerationState)
      → open_lock d ≡ ok tt
      → read_moderation_history_unlocked chan d ≡ ok events
      → validate_moderation_history chan events d ≡ ok s
      → moderation_state chan d ≡ ok s
  unfolding moderation_state read_moderation_history
  moderation_state_of_history d events s o r v = rw (o, r) v

  pub validate-same_policy :
      (events : List ModerationEvent) (d d' : ChannelDir)
      → read_policy_history chan d ≡ read_policy_history chan d'
      → validate_moderation_history chan events d ≡ validate_moderation_history chan events d'
  unfolding validate_moderation_history
  validate-same_policy events d d' h = rw h

  -- Only the policy history and the file matter to a reading.
  pub read_moderation-same_policy :
      (file : Option Bytes) (d d' : ChannelDir)
      → read_policy_history chan d ≡ read_policy_history chan d'
      → read_moderation chan file d ≡ read_moderation chan file d'
  unfolding read_moderation validate_moderation_history
  read_moderation-same_policy none d d' h = refl
  read_moderation-same_policy (some bytes) d d' h = rw h
