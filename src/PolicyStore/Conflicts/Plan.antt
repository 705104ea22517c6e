-- ===== src/PolicyStore/Conflicts/Plan.antt =====
-- What `resolve_policy_conflict` of src/store.rs reads and tests before it writes anything.
use embernet.Prelude.{Str, List, some, ◌==◌, option_eq, option_beq_iff, str_eq, ◌≡◌, ap, sym, ◌∙◌}
use embernet.Fallible.{
  Result, ok, ensure, context, missing_conflict, wrong_conflict_head, ok-injective, true_of_ensure,
}
use embernet.Fallible.Checks.{◌>>=◌, ◌>>◌, bind-eq_ok}
use embernet.Crates.{Crates, ToVec}
use embernet.Ndjson.{Json, read_ndjson}
use embernet.Channel.{ChannelDir, open_lock, open_log, read_file}
use embernet.Policy.{ChannelPolicy, PolicyEvent, PolicyEventPayload}
use embernet.Policy.Actions.{validate_public_key}
use embernet.Policy.History.{derive_policy}
use embernet.PolicyStore.{read_policy_history_unlocked}
use embernet.PolicyStore.Changes.Plan.{last_id}
use embernet.PolicyStore.Remote.Plan.{validate_policy_history}

-- The saved events, their policy, and the history that they replace.
pub record Resolution : Type 0 where
  pub events : List PolicyEvent
  pub policy : ChannelPolicy
  pub current : List PolicyEvent

module _ ⦃k : Crates⦄ ⦃j : ToVec PolicyEventPayload⦄ ⦃event_json : Json PolicyEvent⦄
    (chan : Str) where
  unfoldable pub plan_resolution : Str → ChannelDir → Result Resolution
  plan_resolution head d = do
    validate_public_key head
    bytes ← context (read_file head d.policy_conflicts) missing_conflict
    events ← read_ndjson bytes
    ensure (last_id events == some head) wrong_conflict_head
    policy ← validate_policy_history chan events
    open_log d
    open_lock d
    current ← read_policy_history_unlocked chan d
    ok (record { events = events; policy = policy; current = current })

  -- What a plan that succeeds has found.
  pub record Finds (head : Str) (d : ChannelDir) (plan : Resolution) : Type 0 where
    pub opened : open_lock d ≡ ok tt
    pub ends : last_id plan.events ≡ some head
    pub derived : derive_policy chan plan.events ≡ ok plan.policy
    pub was_read : read_policy_history_unlocked chan d ≡ ok plan.current

  pub plan_resolution-Finds :
      (head : Str) (d : ChannelDir) (plan : Resolution)
      → plan_resolution head d ≡ ok plan
      → Finds head d plan
  unfolding plan_resolution
  plan_resolution-Finds head d plan h =
      let (_, _, h₁) = bind-eq_ok (validate_public_key head) _ h in
      let (bytes, _, h₂) =
        bind-eq_ok (context (read_file head d.policy_conflicts) missing_conflict) _ h₁ in
      let (events, _, h₃) = bind-eq_ok (read_ndjson bytes) _ h₂ in
      let (_, ends, h₄) =
        bind-eq_ok (ensure (last_id events == some head) wrong_conflict_head) _ h₃ in
      let (policy, derived, h₅) = bind-eq_ok (validate_policy_history chan events) _ h₄ in
      let (_, _, h₆) = bind-eq_ok (open_log d) _ h₅ in
      let (_, opened, h₇) = bind-eq_ok (open_lock d) _ h₆ in
      let (current, was_read, h₈) = bind-eq_ok (read_policy_history_unlocked chan d) _ h₇ in
      let e =
        ok-injective (record { events = events; policy = policy; current = current }) plan h₈ in
      record {
        opened = opened;
        ends =
            ap (λ (x : Resolution). last_id x.events) (sym e)
            ∙ (option_beq_iff (last_id events) (some head)).0
                (true_of_ensure (last_id events == some head) wrong_conflict_head ends);
        derived =
            ap (λ (x : Resolution). derive_policy chan x.events) (sym e)
            ∙ derived
            ∙ ap (λ (x : Resolution). ok x.policy) e;
        was_read = was_read ∙ ap (λ (x : Resolution). ok x.current) e;
      }
