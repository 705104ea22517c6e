-- ===== src/ModerationStore/Changes/Plan.antt =====
-- What `append_moderation_action` of src/store.rs reads, tests and signs before it writes anything.
use embernet.Prelude.{ℕ, Str, List, [], ◌∷◌, ◌++◌, ◌≡◌, ap, sym, ◌∙◌}
use embernet.Fallible.{Result, ok, context, policy_required, ok-injective}
use embernet.Fallible.Checks.{◌>>=◌, ◌>>◌, bind-eq_ok}
use embernet.Crates.{Crates, ToVec}
use embernet.Ndjson.{Json}
use embernet.Proto.{KeypairFile}
use embernet.Channel.{ChannelDir, open_lock, open_log}
use embernet.Policy.{PolicyEvent, PolicyEventPayload}
use embernet.PolicyStore.{read_policy_history}
use embernet.PolicyStore.Changes.Plan.{last_id}
use embernet.Moderation.Tombstones.{ModerationState}
use embernet.Moderation.{
  ModerationAction, ModerationEvent, ModerationEventPayload, sign_moderation_event,
}
use embernet.ModerationStore.{
  last_moderation_id, validate_moderation_history, read_moderation_history_unlocked,
}

-- The event to write and the state that it leads to.
pub record ModerationPlan : Type 0 where
  pub event : ModerationEvent
  pub state : ModerationState

module _ ⦃k : Crates⦄ ⦃m : ToVec ModerationEventPayload⦄ ⦃j : ToVec PolicyEventPayload⦄
    ⦃policy_json : Json PolicyEvent⦄ ⦃moderation_json : Json ModerationEvent⦄ (chan : Str)
    (signer : KeypairFile) (now : ℕ) (action : ModerationAction) where
  unfoldable pub plan_moderation_action : ChannelDir → Result ModerationPlan
  plan_moderation_action d = do
    open_log d
    open_lock d
    events ← read_moderation_history_unlocked chan d
    policies ← read_policy_history chan d
    policy_head ← context (last_id policies) policy_required
    event ← sign_moderation_event chan signer now (last_moderation_id events) policy_head action
    state ← validate_moderation_history chan (events ++ event ∷ []) d
    ok (record { event = event; state = state })

  -- What a plan that succeeds has found.
  pub record Prepares (d : ChannelDir) (plan : ModerationPlan) : Type 0 where
    pub events : List ModerationEvent
    pub policies : List PolicyEvent
    pub policy_head : Str
    pub opened : open_lock d ≡ ok tt
    pub was_read : read_moderation_history_unlocked chan d ≡ ok events
    pub policies_read : read_policy_history chan d ≡ ok policies
    pub newest : context (last_id policies) policy_required ≡ ok policy_head
    pub signed :
        sign_moderation_event chan signer now (last_moderation_id events) policy_head action
        ≡ ok plan.event
    pub derived : validate_moderation_history chan (events ++ plan.event ∷ []) d ≡ ok plan.state

  pub plan-Prepares :
      (d : ChannelDir) (plan : ModerationPlan)
      → plan_moderation_action d ≡ ok plan
      → Prepares d plan
  unfolding plan_moderation_action
  plan-Prepares d plan h =
      let (_, _, h₁) = bind-eq_ok (open_log d) _ h in
      let (_, opened, h₂) = bind-eq_ok (open_lock d) _ h₁ in
      let (events, was_read, h₃) = bind-eq_ok (read_moderation_history_unlocked chan d) _ h₂ in
      let (policies, policies_read, h₄) = bind-eq_ok (read_policy_history chan d) _ h₃ in
      let (policy_head, newest, h₅) =
        bind-eq_ok (context (last_id policies) policy_required) _ h₄ in
      let (event, signed, h₆) =
        bind-eq_ok
          (sign_moderation_event chan signer now (last_moderation_id events) policy_head action) _
          h₅ in
      let (state, derived, h₇) =
        bind-eq_ok (validate_moderation_history chan (events ++ event ∷ []) d) _ h₆ in
      let e = ok-injective (record { event = event; state = state }) plan h₇ in
      record {
        events = events;
        policies = policies;
        policy_head = policy_head;
        opened = opened;
        was_read = was_read;
        policies_read = policies_read;
        newest = newest;
        signed = signed ∙ ap (λ (x : ModerationPlan). ok x.event) e;
        derived =
            ap (λ (x : ModerationPlan). validate_moderation_history chan (events ++ x.event ∷ []) d)
              (sym e)
            ∙ derived
            ∙ ap (λ (x : ModerationPlan). ok x.state) e;
      }
