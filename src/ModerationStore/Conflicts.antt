-- ===== src/ModerationStore/Conflicts.antt =====
-- `save_moderation_conflict`, `list_moderation_conflicts` and `resolve_moderation_conflict` of
-- src/store.rs.
pub mod Plan
pub mod Effects
use embernet.Prelude.{
  ℕ, Str, Bool, true, ◌&&◌, not, List, [], ◌∷◌, Option, none, some, is_empty, last, if◌then◌else◌,
  ◌==◌, option_eq, str_eq,
}
use embernet.Fallible.{Result, ok, err, context, Action, reads, lift, pure, writes, empty_conflict}
use embernet.Fallible.Actions.{◌>>=◌, ◌>>◌}
use embernet.Crates.{Crates, ToVec}
use embernet.Ndjson.{Json, encode_lines}
use embernet.Channel.{ChannelDir, write_file, file_names}
use embernet.Policy.{PolicyEvent, PolicyEventPayload}
use embernet.Moderation.Tombstones.{ModerationState}
use embernet.Moderation.{ModerationEvent, ModerationEventPayload}
use embernet.ModerationStore.{
  last_moderation_id, validate_moderation_history, write_moderation_cache,
}
use embernet.ModerationStore.Conflicts.Plan.{ModerationResolution, plan_moderation_resolution}

abbrev pub list_moderation_conflicts : ChannelDir → List Str
list_moderation_conflicts d = file_names d.moderation_conflicts

module _ ⦃k : Crates⦄ ⦃m : ToVec ModerationEventPayload⦄ ⦃j : ToVec PolicyEventPayload⦄
    ⦃policy_json : Json PolicyEvent⦄ ⦃moderation_json : Json ModerationEvent⦄ (chan : Str) where
  unfoldable pub save_moderation_conflict : List ModerationEvent → Action ChannelDir Str
  save_moderation_conflict events = do
    reads (validate_moderation_history chan events)
    head ← lift (context (last_moderation_id events) empty_conflict)
    writes (λ d. record d {
      exists = true;
      moderation_conflicts = write_file head (encode_lines events) d.moderation_conflicts;
    })
    pure head

  -- The local history is saved where the other one ends differently.
  unfoldable pub preserve_moderation :
      List ModerationEvent → List ModerationEvent → Action ChannelDir (Unit {0})
  preserve_moderation current events =
      if not (is_empty current) && not (last_moderation_id current == last_moderation_id events)
      then (do save_moderation_conflict current; pure tt)
      else pure tt

  module _ ⦃state_json : Json ModerationState⦄ where
    unfoldable pub resolve_moderation_conflict : Str → Action ChannelDir ModerationState
    resolve_moderation_conflict head = do
      plan ← reads (plan_moderation_resolution chan head)
      preserve_moderation plan.current plan.events
      writes (λ d. record d { moderation_log = some (encode_lines plan.events) })
      write_moderation_cache plan.state
      pure plan.state
