-- ===== src/PolicyStore/Remote/Plan.antt =====
-- What `append_remote_policy_history` of src/store.rs reads and tests before it writes anything.
use embernet.Prelude.{Str, true, List, ◌≡◌, ap, sym, ◌∙◌}
use embernet.Fallible.{Result, ok, ensure, not_an_extension, true_of_ensure, ok-injective}
use embernet.Fallible.Checks.{◌>>=◌, ◌>>◌, bind-eq_ok}
use embernet.Crates.{Crates, ToVec}
use embernet.Ndjson.{Json}
use embernet.Channel.{ChannelDir, open_lock, open_log}
use embernet.Policy.{ChannelPolicy, PolicyEvent, PolicyEventPayload}
use embernet.Policy.History.{derive_policy}
use embernet.Policy.History.Prefix.{is_policy_prefix}
use embernet.PolicyStore.{read_policy_history_unlocked}

-- The local history and the policy of the remote one.
pub record RemotePlan : Type 0 where
  pub local : List PolicyEvent
  pub policy : ChannelPolicy

module _ ⦃k : Crates⦄ ⦃j : ToVec PolicyEventPayload⦄ where
  abbrev pub validate_policy_history : Str → List PolicyEvent → Result ChannelPolicy
  validate_policy_history chan events = derive_policy chan events

module _ ⦃k : Crates⦄ ⦃j : ToVec PolicyEventPayload⦄ ⦃event_json : Json PolicyEvent⦄
    (chan : Str) where
  unfoldable pub plan_remote : List PolicyEvent → ChannelDir → Result RemotePlan
  plan_remote remote d = do
    open_log d
    open_lock d
    local ← read_policy_history_unlocked chan d
    policy ← validate_policy_history chan remote
    ensure (is_policy_prefix local remote) not_an_extension
    ok (record { local = local; policy = policy })

  -- What a plan that succeeds has found.
  pub record Accepts (remote : List PolicyEvent) (d : ChannelDir) (plan : RemotePlan) : Type 0 where
    pub opened : open_lock d ≡ ok tt
    pub was_read : read_policy_history_unlocked chan d ≡ ok plan.local
    pub derived : derive_policy chan remote ≡ ok plan.policy
    pub extends : is_policy_prefix plan.local remote ≡ true

  pub plan_remote-Accepts :
      (remote : List PolicyEvent) (d : ChannelDir) (plan : RemotePlan)
      → plan_remote remote d ≡ ok plan
      → Accepts remote d plan
  unfolding plan_remote
  plan_remote-Accepts remote d plan h =
      let (_, _, h₁) = bind-eq_ok (open_log d) _ h in
      let (_, opened, h₂) = bind-eq_ok (open_lock d) _ h₁ in
      let (local, was_read, h₃) = bind-eq_ok (read_policy_history_unlocked chan d) _ h₂ in
      let (policy, derived, h₄) = bind-eq_ok (derive_policy chan remote) _ h₃ in
      let (_, extends, h₅) =
        bind-eq_ok (ensure (is_policy_prefix local remote) not_an_extension) _ h₄ in
      let e = ok-injective (record { local = local; policy = policy }) plan h₅ in
      record {
        opened = opened;
        was_read = was_read ∙ ap (λ (x : RemotePlan). ok x.local) e;
        derived = derived ∙ ap (λ (x : RemotePlan). ok x.policy) e;
        extends =
            ap (λ (x : RemotePlan). is_policy_prefix x.local remote) (sym e)
            ∙ true_of_ensure (is_policy_prefix local remote) not_an_extension extends;
      }
