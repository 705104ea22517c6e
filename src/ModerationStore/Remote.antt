-- ===== src/ModerationStore/Remote.antt =====
-- `append_remote_moderation_history` of src/store.rs.
pub mod Plan
pub mod Effects
use embernet.Prelude.{ℕ, Str, Bool, List, length, drop, ltb, if◌then◌else◌}
use embernet.Fallible.{Action, reads, pure}
use embernet.Fallible.Actions.{◌>>=◌, ◌>>◌}
use embernet.Crates.{Crates, ToVec}
use embernet.Ndjson.{Json}
use embernet.Channel.{ChannelDir}
use embernet.Policy.{PolicyEvent, PolicyEventPayload}
use embernet.Moderation.Tombstones.{ModerationState}
use embernet.Moderation.{ModerationEvent, ModerationEventPayload}
use embernet.ModerationStore.{
  validate_moderation_history, append_moderation_events, write_moderation_cache,
}
use embernet.ModerationStore.Remote.Plan.{plan_remote_moderation}

module _ ⦃k : Crates⦄ ⦃m : ToVec ModerationEventPayload⦄ ⦃j : ToVec PolicyEventPayload⦄
    ⦃policy_json : Json PolicyEvent⦄ ⦃moderation_json : Json ModerationEvent⦄
    ⦃state_json : Json ModerationState⦄ (chan : Str) where
  -- The remote history is derived once more after it has been written.
  unfoldable pub append_remote_moderation_history :
      List ModerationEvent → Action ChannelDir ModerationState
  append_remote_moderation_history remote = do
    local ← reads (plan_remote_moderation chan remote)
    if ltb (length local) (length remote)
        then append_moderation_events (drop (length local) remote)
        else pure tt
    state ← reads (validate_moderation_history chan remote)
    write_moderation_cache state
    pure state
