-- ===== src/ModerationStore/Changes/Effects.antt =====
-- What `append_moderation_action` of src/store.rs leaves behind, on success and on failure.
use embernet.Prelude.{ℕ, Str, List, [], ◌∷◌, ◌++◌, some, ◌≡◌, refl, sym, ◌∙◌}
use embernet.Fallible.{ok, context, policy_required, ok-ne-err}
use embernet.Fallible.Actions.{IsAtomicAt, returned, proceed-eq_ok, proceed-IsAtomicAt}
use embernet.Crates.{Crates, ToVec}
use embernet.Ndjson.{Json, LineLaws, encode_lines}
use embernet.Proto.{KeypairFile}
use embernet.Channel.{ChannelDir, append_file}
use embernet.Policy.{PolicyEvent, PolicyEventPayload}
use embernet.PolicyStore.{read_policy_history}
use embernet.PolicyStore.Changes.Plan.{last_id}
use embernet.PolicyStore.Changes.Effects.{FileEndsClean}
use embernet.Moderation.Tombstones.{ModerationState}
use embernet.Moderation.{
  ModerationAction, ModerationEvent, ModerationEventPayload, sign_moderation_event,
}
use embernet.ModerationStore.{
  validate_moderation_history, last_moderation_id, read_moderation_history_unlocked,
  moderation_state,
}
use embernet.ModerationStore.Reading.{
  read_moderation-append, moderation_state_of_history, validate-same_policy,
  read_moderation-same_policy,
}
use embernet.ModerationStore.Changes.Plan.{
  ModerationPlan, plan_moderation_action, Prepares, plan-Prepares,
}
use embernet.ModerationStore.Changes.{append_moderation_action}

module _ ⦃k : Crates⦄ ⦃m : ToVec ModerationEventPayload⦄ ⦃j : ToVec PolicyEventPayload⦄
    ⦃policy_json : Json PolicyEvent⦄ ⦃moderation_json : Json ModerationEvent⦄
    ⦃state_json : Json ModerationState⦄ (chan : Str) (signer : KeypairFile) (now : ℕ)
    (action : ModerationAction) where
  -- A moderation that fails writes nothing.
  pub append_moderation_action-IsAtomicAt :
      (d : ChannelDir) → IsAtomicAt (append_moderation_action chan signer now action) d
  unfolding append_moderation_action
  append_moderation_action-IsAtomicAt d =
      proceed-IsAtomicAt _ (plan_moderation_action chan signer now action d) d
        λ plan _ e h. absurd (ok-ne-err plan.state e h)

  abbrev moderated : ChannelDir → ModerationEvent → ModerationState → ChannelDir
  moderated d event s = record d {
    moderation_log = append_file d.moderation_log (encode_lines (event ∷ []));
    moderation_cache = some (state_json.to_vec s);
  }

  -- `d'` is `d` with one event behind the moderation history, which is signed over the newest policy
  -- event; `s` is the state that the channel now has and that the cache holds; no other file has
  -- changed.
  pub record IsModerated (d d' : ChannelDir) (s : ModerationState) : Type 0 where
    pub events : List ModerationEvent
    pub event : ModerationEvent
    pub policies : List PolicyEvent
    pub policy_head : Str
    pub before : read_moderation_history_unlocked chan d ≡ ok events
    pub policies_read : read_policy_history chan d ≡ ok policies
    pub newest : context (last_id policies) policy_required ≡ ok policy_head
    pub signed :
        sign_moderation_event chan signer now (last_moderation_id events) policy_head action
        ≡ ok event
    pub derived : validate_moderation_history chan (events ++ event ∷ []) d ≡ ok s
    pub files : d' ≡ moderated d event s
    pub after : read_moderation_history_unlocked chan d' ≡ ok (events ++ event ∷ [])
    pub current : moderation_state chan d' ≡ ok s

  prepared-IsModerated :
      (d : ChannelDir) (plan : ModerationPlan)
      → LineLaws moderation_json
      → FileEndsClean d.moderation_log
      → Prepares chan signer now action d plan
      → IsModerated d (moderated d plan.event plan.state) plan.state
  prepared-IsModerated d plan laws clean found =
      let new = moderated d plan.event plan.state in
      let after =
        sym (
          read_moderation-same_policy chan
            (append_file d.moderation_log (encode_lines (plan.event ∷ []))) d new refl)
        ∙ read_moderation-append chan d.moderation_log d found.events (plan.event ∷ []) plan.state
            laws clean found.was_read found.derived in
      record {
        events = found.events;
        event = plan.event;
        policies = found.policies;
        policy_head = found.policy_head;
        before = found.was_read;
        policies_read = found.policies_read;
        newest = found.newest;
        signed = found.signed;
        derived = found.derived;
        files = refl;
        after = after;
        current =
            moderation_state_of_history chan new (found.events ++ plan.event ∷ []) plan.state
              found.opened after
              (sym (validate-same_policy chan (found.events ++ plan.event ∷ []) d new refl)
                ∙ found.derived);
      }

  -- A moderation that succeeds on a history file that ends in a newline adds one event behind the
  -- history, signed over the newest policy event. The state that it returns is the one that the
  -- channel then has and that the cache holds; no other file changes.
  pub append_moderation_action-IsModerated :
      (d d' : ChannelDir) (s : ModerationState)
      → LineLaws moderation_json
      → FileEndsClean d.moderation_log
      → append_moderation_action chan signer now action d ≡ (ok s, d')
      → IsModerated d d' s
  unfolding append_moderation_action
  append_moderation_action-IsModerated d d' s laws clean h =
      let (plan, planned, done) =
        proceed-eq_ok _ (plan_moderation_action chan signer now action d) d d' s h in
      returned (IsModerated d) done (
        prepared-IsModerated d plan laws clean
          (plan-Prepares chan signer now action d plan planned))
