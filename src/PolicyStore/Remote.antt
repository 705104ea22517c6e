-- ===== src/PolicyStore/Remote.antt =====
-- `append_remote_policy_history`, `rebuild_policy_cache` and `list_policy_conflicts` of src/store.rs.
pub mod Plan
pub mod Effects
use embernet.Prelude.{ℕ, Str, Bool, List, ◌++◌, length, drop, ltb, if◌then◌else◌, ◌≡◌}
use embernet.Fallible.{Result, ok, err, ensure, Action, reads, pure, writes, not_an_extension}
use embernet.Fallible.Checks
use embernet.Fallible.Actions.{◌>>=◌, ◌>>◌}
use embernet.Crates.{Crates, ToVec}
use embernet.Ndjson.{Json}
use embernet.Channel.{ChannelDir, open_lock, open_log, file_names}
use embernet.Policy.{ChannelPolicy, PolicyEvent, PolicyEventPayload}
use embernet.Policy.History.{derive_policy}
use embernet.Policy.History.Prefix.{is_policy_prefix}
use embernet.PolicyStore.Remote.Plan.{RemotePlan, plan_remote}
use embernet.PolicyStore.{read_policy_history_unlocked}
use embernet.PolicyStore.Changes.{append_events, write_policy_cache}

module _ ⦃k : Crates⦄ ⦃j : ToVec PolicyEventPayload⦄ ⦃event_json : Json PolicyEvent⦄
    (chan : Str) where
  module _ ⦃cache_json : Json ChannelPolicy⦄ where
    unfoldable pub append_remote_policy_history : List PolicyEvent → Action ChannelDir ChannelPolicy
    append_remote_policy_history remote = do
      plan ← reads (plan_remote chan remote)
      if ltb (length plan.local) (length remote)
          then append_events (drop (length plan.local) remote)
          else pure tt
      write_policy_cache plan.policy
      pure plan.policy

    unfoldable pub rebuild_policy_cache : Action ChannelDir ChannelPolicy
    rebuild_policy_cache = do
      reads open_lock
      events ← reads (read_policy_history_unlocked chan)
      policy ← reads (λ _. derive_policy chan events)
      write_policy_cache policy
      pure policy
