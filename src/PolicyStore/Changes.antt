-- ===== src/PolicyStore/Changes.antt =====
-- The local changes of a channel's policy in src/store.rs. Each reads the clock when it signs; the
-- caller passes the readings in, and the random bytes of a new channel key.
pub mod Plan
pub mod Effects
use embernet.Prelude.{
  ℕ, Bytes, Str, Bool, true, false, ◌&&◌, not, List, [], ◌∷◌, ◌++◌, map, Option, none, some, ◌==◌,
  is_empty, last, if◌then◌else◌,
}
use embernet.Fallible.{
  Result, ok, err, ensure, Action, reads, lift, pure, writes, owner_adopts, owner_transfers,
  channel_not_restricted, owner_sets_visibility,
}
use embernet.Fallible.Actions.{◌>>=◌, ◌>>◌}
use embernet.Crates.{Crates, ToVec}
use embernet.Ndjson.{Json, encode_lines}
use embernet.Proto.{KeypairFile}
use embernet.Keyring.{ChannelKey, generate_channel_key}
use embernet.Channel.{ChannelDir, open_lock, open_log, append_file}
use embernet.Policy.{
  ChannelVisibility, PolicyRole, ChannelPolicy, PolicyAction, restrict, adopt, grant, revoke,
  transfer_owner, set_visibility, is_restricted, is_private, is_owner, PolicyEvent,
  PolicyEventPayload,
}
use embernet.Policy.Actions.{validate_public_key, authorize_policy_change}
use embernet.Policy.History.{sign_policy_event, derive_policy}
use embernet.PolicyStore.Changes.Plan.{Clock, Extension, plan_policy_action}
use embernet.PolicyStore.{read_policy_cache, read_policy_history_unlocked, read_channel_policy}

module _ ⦃cache_json : Json ChannelPolicy⦄ where
  -- `write_policy_cache`.
  abbrev pub write_policy_cache : ChannelPolicy → Action ChannelDir (Unit {0})
  write_policy_cache p = writes (λ d. record d { policy_cache = some (cache_json.to_vec p) })

module _ ⦃event_json : Json PolicyEvent⦄ where
  -- Appending events to `policy.ndjson`.
  abbrev pub append_events : List PolicyEvent → Action ChannelDir (Unit {0})
  append_events events =
      writes (λ d. record d { policy_log = append_file d.policy_log (encode_lines events) })

module _ ⦃k : Crates⦄ ⦃j : ToVec PolicyEventPayload⦄ ⦃event_json : Json PolicyEvent⦄
    ⦃cache_json : Json ChannelPolicy⦄ (chan : Str) (signer : KeypairFile) (clock : Clock) where
  unfoldable pub append_policy_action : PolicyAction → Action ChannelDir ChannelPolicy
  append_policy_action action = do
    plan ← reads (plan_policy_action chan signer clock action)
    append_events plan.added
    write_policy_cache plan.policy
    pure plan.policy

  unfoldable pub restrict_channel : Action ChannelDir ChannelPolicy
  restrict_channel = append_policy_action (restrict signer.public_key)

  unfoldable pub grant_role : PolicyRole → Str → Action ChannelDir ChannelPolicy
  grant_role role key = append_policy_action (grant role key)

  module _ ⦃key_json : Json (List ChannelKey)⦄ (raw : Bytes) where
    -- A private channel gets a new key before the members change.
    abbrev pub rotate_key : Bool → Action ChannelDir (Unit {0})
    rotate_key false = pure tt
    rotate_key true = do generate_channel_key raw; pure tt

    unfoldable pub revoke_role : PolicyRole → Str → Action ChannelDir ChannelPolicy
    revoke_role role key = do
      lift (validate_public_key key)
      current ← reads (read_channel_policy chan)
      lift (authorize_policy_change current signer.public_key role)
      rotate_key (is_private current.visibility)
      append_policy_action (revoke role key)

    unfoldable pub transfer_ownership : Str → Action ChannelDir ChannelPolicy
    transfer_ownership new_owner = do
      lift (validate_public_key new_owner)
      current ← reads (read_channel_policy chan)
      lift (ensure (is_owner current signer.public_key) owner_transfers)
      rotate_key (is_private current.visibility)
      append_policy_action (transfer_owner new_owner)

    unfoldable pub set_channel_visibility : ChannelVisibility → Action ChannelDir ChannelPolicy
    set_channel_visibility visibility = do
      current ← reads (read_channel_policy chan)
      lift (ensure (is_restricted current.mode) channel_not_restricted)
      lift (ensure (is_owner current signer.public_key) owner_sets_visibility)
      rotate_key (is_private visibility)
      append_policy_action (set_visibility visibility)
