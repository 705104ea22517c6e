-- ===== src/Sync/Server/Reconciliation.antt =====
-- How `run_sync` of src/sync.rs reconciles the histories of policies and of moderation.
use embernet.Prelude.{
  Str, Bool, true, false, ◌&&◌, not, codes, List, length, ltb, nat_eq, str_eq, if◌then◌else◌,
}
use embernet.Fallible.{
  Result, ensure, Action, reads, lift, pure, fail, requester_not_member, policy_fork,
  moderation_fork,
}
use embernet.Fallible.Checks
use embernet.Fallible.Actions.{◌>>=◌, ◌>>◌}
use embernet.Crates.{Crates, ToVec}
use embernet.Redb.{Redb}
use embernet.Ndjson.{Json}
use embernet.Channel.{ChannelDir}
use embernet.Policy.{ChannelPolicy, policy_allows_read, PolicyEvent, PolicyEventPayload}
use embernet.Policy.History.Prefix.{is_policy_prefix}
use embernet.PolicyStore.{read_policy_history, read_channel_policy}
use embernet.PolicyStore.Remote.Plan.{validate_policy_history}
use embernet.PolicyStore.Remote.{append_remote_policy_history}
use embernet.PolicyStore.Conflicts.{save_policy_conflict}
use embernet.Moderation.Tombstones.{ModerationState}
use embernet.Moderation.{ModerationEvent, ModerationEventPayload}
use embernet.Moderation.Prefix.{is_moderation_prefix}
use embernet.ModerationStore.{validate_moderation_history, read_moderation_history}
use embernet.ModerationStore.Remote.{append_remote_moderation_history}
use embernet.ModerationStore.Conflicts.{save_moderation_conflict}
use embernet.Sync.Socket.{Socket, send}
use embernet.Sync.Session.{Session, on_dir, on_socket}
use embernet.Sync.{SyncJson, StatusMessage}

module _ ⦃s : SyncJson⦄ where
  abbrev pub send_policy : Str → List PolicyEvent → Action Socket (Unit {0})
  send_policy status events = send (
      s.policy.to_vec (record { msg_type = codes "policy_sync"; status = status; events = events }))

  abbrev pub send_moderation : Str → List ModerationEvent → Action Socket (Unit {0})
  send_moderation status events = send (
      s.moderation.to_vec
        (record { msg_type = codes "moderation_sync"; status = status; events = events }))

module _ ⦃r : Redb⦄ ⦃s : SyncJson⦄ ⦃k : Crates⦄ ⦃p : ToVec PolicyEventPayload⦄
    ⦃policy_json : Json PolicyEvent⦄ ⦃cache_json : Json ChannelPolicy⦄ (chan : Str) where
  -- That the policy as it now is lets the requester read.
  unfoldable pub require_member : Str → ChannelDir → Result (Unit {0})
  require_member requester d =
      Checks.◌>>=◌ (read_channel_policy chan d)
        λ policy. ensure (policy_allows_read policy requester) requester_not_member

  abbrev pub reject_policy : List PolicyEvent → List PolicyEvent → Action Session (Unit {0})
  reject_policy local remote = do
    on_dir (save_policy_conflict chan remote)
    on_socket (send_policy (codes "conflict") local)
    fail policy_fork

  abbrev pub merge_policy : Bool → List PolicyEvent → Action Session (Unit {0})
  merge_policy false remote = pure tt
  merge_policy true remote = do on_dir (append_remote_policy_history chan remote); pure tt

  -- The part of `run_sync` that reconciles the policy histories.
  unfoldable pub reconcile_policy : StatusMessage → Action Session (Unit {0})
  reconcile_policy status = do
    lift (validate_policy_history chan status.policy_events)
    local ← on_dir (reads (read_policy_history chan))
    on_dir (reads (require_member status.requester))
    let ahead = is_policy_prefix local status.policy_events
    let behind = is_policy_prefix status.policy_events local
    if not ahead && not behind
        then reject_policy local status.policy_events
        else merge_policy (ahead && ltb (length local) (length status.policy_events))
            status.policy_events
    on_dir (reads (require_member status.requester))
    reconciled ← on_dir (reads (read_policy_history chan))
    on_socket (send_policy (codes "update") reconciled)

  module _ ⦃m : ToVec ModerationEventPayload⦄ ⦃moderation_json : Json ModerationEvent⦄ where
    abbrev pub reject_moderation :
        List ModerationEvent → List ModerationEvent → Action Session (Unit {0})
    reject_moderation local remote = do
      on_dir (save_moderation_conflict chan remote)
      on_socket (send_moderation (codes "conflict") local)
      fail moderation_fork

    module _ ⦃state_json : Json ModerationState⦄ where
      abbrev pub merge_moderation : Bool → List ModerationEvent → Action Session (Unit {0})
      merge_moderation false remote = pure tt
      merge_moderation true remote = do
        on_dir (append_remote_moderation_history chan remote)
        pure tt

      -- The part of `run_sync` that reconciles the moderation histories.
      unfoldable pub reconcile_moderation : StatusMessage → Action Session (Unit {0})
      reconcile_moderation status = do
        on_dir (reads (validate_moderation_history chan status.moderation_events))
        local ← on_dir (reads (read_moderation_history chan))
        let ahead = is_moderation_prefix local status.moderation_events
        let behind = is_moderation_prefix status.moderation_events local
        if not ahead && not behind
            then reject_moderation local status.moderation_events
            else merge_moderation (ahead && ltb (length local) (length status.moderation_events))
                status.moderation_events
        reconciled ← on_dir (reads (read_moderation_history chan))
        on_socket (send_moderation (codes "update") reconciled)
