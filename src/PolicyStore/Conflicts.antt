-- ===== src/PolicyStore/Conflicts.antt =====
-- `save_policy_conflict`, `list_policy_conflicts` and `resolve_policy_conflict` of src/store.rs.
pub mod Plan
pub mod Effects
use embernet.Prelude.{
  ℕ, Bytes, Str, Bool, true, ◌&&◌, not, List, [], ◌∷◌, ◌++◌, Option, none, some, is_empty, last,
  if◌then◌else◌, ◌==◌, option_eq, str_eq, ◌≡◌,
}
use embernet.Fallible.{
  Result, ok, err, ensure, context, Action, reads, lift, pure, writes, empty_conflict,
  missing_conflict, wrong_conflict_head,
}
use embernet.Fallible.Checks
use embernet.Fallible.Actions.{◌>>=◌, ◌>>◌}
use embernet.Crates.{Crates, ToVec}
use embernet.Ndjson.{Json, read_ndjson, encode_lines}
use embernet.Channel.{ChannelDir, open_lock, open_log, write_file, read_file, file_names}
use embernet.Policy.{ChannelPolicy, PolicyEvent, PolicyEventPayload}
use embernet.Policy.Actions.{validate_public_key}
use embernet.PolicyStore.{read_policy_history_unlocked}
use embernet.PolicyStore.Changes.Plan.{last_id}
use embernet.PolicyStore.Changes.{write_policy_cache}
use embernet.PolicyStore.Remote.Plan.{validate_policy_history}
use embernet.PolicyStore.Conflicts.Plan.{Resolution, plan_resolution}

abbrev pub list_policy_conflicts : ChannelDir → List Str
list_policy_conflicts d = file_names d.policy_conflicts

module _ ⦃k : Crates⦄ ⦃j : ToVec PolicyEventPayload⦄ ⦃event_json : Json PolicyEvent⦄
    (chan : Str) where
  -- `ensure_dir` makes the channel's directory too, where it is not there.
  unfoldable pub save_policy_conflict : List PolicyEvent → Action ChannelDir Str
  save_policy_conflict events = do
    lift (validate_policy_history chan events)
    head ← lift (context (last_id events) empty_conflict)
    writes (λ d. record d {
      exists = true;
      policy_conflicts = write_file head (encode_lines events) d.policy_conflicts;
    })
    pure head

  -- The local history is saved where the other one ends differently.
  unfoldable pub preserve_displaced :
      List PolicyEvent → List PolicyEvent → Action ChannelDir (Unit {0})
  preserve_displaced current events =
      if not (is_empty current) && not (last_id current == last_id events)
      then (do save_policy_conflict current; pure tt)
      else pure tt

  module _ ⦃cache_json : Json ChannelPolicy⦄ where
    unfoldable pub resolve_policy_conflict : Str → Action ChannelDir ChannelPolicy
    resolve_policy_conflict head = do
      plan ← reads (plan_resolution chan head)
      preserve_displaced plan.current plan.events
      writes (λ d. record d { policy_log = some (encode_lines plan.events) })
      write_policy_cache plan.policy
      pure plan.policy
