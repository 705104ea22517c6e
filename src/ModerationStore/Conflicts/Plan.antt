-- ===== src/ModerationStore/Conflicts/Plan.antt =====
-- What `resolve_moderation_conflict` of src/store.rs reads and tests before it writes anything.
use embernet.Prelude.{Str, List, some, ◌==◌, option_eq, option_beq_iff, str_eq, ◌≡◌, ap, sym, ◌∙◌}
use embernet.Fallible.{
  Result, ok, ensure, context, missing_conflict, wrong_conflict_head, ok-injective, true_of_ensure,
}
use embernet.Fallible.Checks.{◌>>=◌, ◌>>◌, bind-eq_ok}
use embernet.Crates.{Crates, ToVec}
use embernet.Ndjson.{Json, read_ndjson}
use embernet.Channel.{ChannelDir, open_lock, open_log, read_file}
use embernet.Policy.{PolicyEvent, PolicyEventPayload}
use embernet.Policy.Actions.{validate_public_key}
use embernet.Moderation.Tombstones.{ModerationState}
use embernet.Moderation.{ModerationEvent, ModerationEventPayload}
use embernet.ModerationStore.{
  last_moderation_id, validate_moderation_history, read_moderation_history_unlocked,
}

-- The saved events, their state, and the history that they replace.
pub record ModerationResolution : Type 0 where
  pub events : List ModerationEvent
  pub state : ModerationState
  pub current : List ModerationEvent

module _ ⦃k : Crates⦄ ⦃m : ToVec ModerationEventPayload⦄ ⦃j : ToVec PolicyEventPayload⦄
    ⦃policy_json : Json PolicyEvent⦄ ⦃moderation_json : Json ModerationEvent⦄ (chan : Str) where
  unfoldable pub plan_moderation_resolution : Str → ChannelDir → Result ModerationResolution
  plan_moderation_resolution head d = do
    validate_public_key head
    bytes ← context (read_file head d.moderation_conflicts) missing_conflict
    events ← read_ndjson bytes
    ensure (last_moderation_id events == some head) wrong_conflict_head
    state ← validate_moderation_history chan events d
    open_log d
    open_lock d
    current ← read_moderation_history_unlocked chan d
    ok (record { events = events; state = state; current = current })

  -- What a plan that succeeds has found.
  pub record FindsModeration (head : Str) (d : ChannelDir) (plan : ModerationResolution)
      : Type 0 where
    pub opened : open_lock d ≡ ok tt
    pub ends : last_moderation_id plan.events ≡ some head
    pub derived : validate_moderation_history chan plan.events d ≡ ok plan.state
    pub was_read : read_moderation_history_unlocked chan d ≡ ok plan.current

  pub plan-FindsModeration :
      (head : Str) (d : ChannelDir) (plan : ModerationResolution)
      → plan_moderation_resolution head d ≡ ok plan
      → FindsModeration head d plan
  unfolding plan_moderation_resolution
  plan-FindsModeration head d plan h =
      let (_, _, h₁) = bind-eq_ok (validate_public_key head) _ h in
      let (bytes, _, h₂) =
        bind-eq_ok (context (read_file head d.moderation_conflicts) missing_conflict) _ h₁ in
      let (events, _, h₃) = bind-eq_ok (read_ndjson bytes) _ h₂ in
      let (_, ends, h₄) =
        bind-eq_ok (ensure (last_moderation_id events == some head) wrong_conflict_head) _ h₃ in
      let (state, derived, h₅) = bind-eq_ok (validate_moderation_history chan events d) _ h₄ in
      let (_, _, h₆) = bind-eq_ok (open_log d) _ h₅ in
      let (_, opened, h₇) = bind-eq_ok (open_lock d) _ h₆ in
      let (current, was_read, h₈) = bind-eq_ok (read_moderation_history_unlocked chan d) _ h₇ in
      let e = ok-injective (record { events = events; state = state; current = current }) plan h₈ in
      record {
        opened = opened;
        ends =
            ap (λ (x : ModerationResolution). last_moderation_id x.events) (sym e)
            ∙ (option_beq_iff (last_moderation_id events) (some head)).0
                (true_of_ensure (last_moderation_id events == some head) wrong_conflict_head ends);
        derived =
            ap (λ (x : ModerationResolution). validate_moderation_history chan x.events d) (sym e)
            ∙ derived
            ∙ ap (λ (x : ModerationResolution). ok x.state) e;
        was_read = was_read ∙ ap (λ (x : ModerationResolution). ok x.current) e;
      }
