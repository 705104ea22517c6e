-- ===== src/ModerationStore/Changes.antt =====
-- `append_moderation_action` and `restore_message` of src/store.rs. The caller passes the reading of
-- the clock in.
pub mod Plan
pub mod Effects
use embernet.Prelude.{ℕ, Str, List, [], ◌∷◌}
use embernet.Fallible.{Action, reads, pure}
use embernet.Fallible.Actions.{◌>>=◌, ◌>>◌}
use embernet.Crates.{Crates, ToVec}
use embernet.Ndjson.{Json}
use embernet.Proto.{KeypairFile}
use embernet.Channel.{ChannelDir}
use embernet.Policy.{PolicyEvent, PolicyEventPayload}
use embernet.Moderation.Tombstones.{ModerationState}
use embernet.Moderation.{ModerationAction, restore, ModerationEvent, ModerationEventPayload}
use embernet.ModerationStore.{append_moderation_events, write_moderation_cache}
use embernet.ModerationStore.Changes.Plan.{plan_moderation_action}

module _ ⦃k : Crates⦄ ⦃m : ToVec ModerationEventPayload⦄ ⦃j : ToVec PolicyEventPayload⦄
    ⦃policy_json : Json PolicyEvent⦄ ⦃moderation_json : Json ModerationEvent⦄
    ⦃state_json : Json ModerationState⦄ (chan : Str) (signer : KeypairFile) (now : ℕ) where
  unfoldable pub append_moderation_action : ModerationAction → Action ChannelDir ModerationState
  append_moderation_action action = do
    plan ← reads (plan_moderation_action chan signer now action)
    append_moderation_events (plan.event ∷ [])
    write_moderation_cache plan.state
    pure plan.state

  unfoldable pub restore_message : Str → Action ChannelDir ModerationState
  restore_message target = append_moderation_action (restore target)
