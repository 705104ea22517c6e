-- ===== src/Examples/StoreCases.antt =====
-- The files of a channel: Alice restricts a new channel, and a copy of it is synchronised.
use embernet.Prelude.{
  str_beq, codes, true, false, [], ◌∷◌, none, some, ◌≡◌, refl, is_prefix, str_eq,
}
use embernet.Fallible.{ok}
use embernet.Proto.{verify_bytes}
use embernet.Channel.{ChannelDir, create_channel}
use embernet.Policy.{restricted, ChannelPolicy, default_policy, restrict}
use embernet.Policy.Actions.{validate_public_key, apply_policy_action}
use embernet.Policy.History.{check_policy_event, replay_policy, derive_policy}
use embernet.Policy.History.Prefix.{is_policy_prefix}
use embernet.PolicyStore.{read_history}
use embernet.PolicyStore.Changes.Plan.{Clock}
use embernet.PolicyStore.Changes.{append_policy_action}
use embernet.PolicyStore.Remote.Plan.{plan_remote}
use embernet.PolicyStore.Remote.{append_remote_policy_history}
use embernet.PolicyStore.Remote.Effects.{
  append_remote_policy_history-IsMerged, IsMerged, append_remote-resets_unsigned,
}
use embernet.Examples.Codes.{code-VecLaws, code-LineLaws}
use embernet.Examples.Toy.{toy, toy-HashLaws}
use embernet.Examples.Wire.{
  policy_payload_vec, policy_event_json, policy_cache_json, policy_payload_code, policy_event_code,
}
use embernet.Examples.People.{key_of, alice, first}

abbrev no_dir : ChannelDir
no_dir = record {
  exists = false;
  log = none;
  policy_log = none;
  policy_cache = none;
  policy_conflicts = [];
  moderation_log = none;
  moderation_cache = none;
  moderation_conflicts = [];
  keyring = none;
}

abbrev pub new_dir : ChannelDir
new_dir = record no_dir { exists = true; log = some [] }

new_dir_created : create_channel no_dir ≡ new_dir
unfolding create_channel
new_dir_created = refl

abbrev clock : Clock
clock = record { adopted_at = 1; signed_at = 2 }

abbrev pub owned : ChannelPolicy
owned = record default_policy { mode = restricted; owner = some (key_of 1) }

abbrev restricted_dir : ChannelDir
restricted_dir = (append_policy_action (codes "a") alice clock (restrict (key_of 1)) new_dir).1

-- A restricted policy from before the signed histories.
abbrev legacy_dir : ChannelDir
legacy_dir = record new_dir { policy_cache = some (policy_cache_json.to_vec owned) }

append_remote-resets_unsigned_example : append_remote_policy_history (codes "a") [] legacy_dir ≡ (
  ok default_policy,
  record legacy_dir { policy_cache = some (policy_cache_json.to_vec default_policy) },
)
append_remote-resets_unsigned_example =
    append_remote-resets_unsigned (codes "a") legacy_dir refl (λ e. cc) refl

abbrev synced_dir : ChannelDir
synced_dir = (append_remote_policy_history (codes "a") (first ∷ []) new_dir).1

history_synced :
    append_remote_policy_history (codes "a") (first ∷ []) new_dir ≡ (ok owned, synced_dir)
unfolding append_remote_policy_history plan_remote read_history is_policy_prefix is_prefix
    derive_policy replay_policy check_policy_event verify_bytes apply_policy_action
    validate_public_key str_beq
history_synced = refl

append_remote_policy_history-IsMerged_example :
    IsMerged (codes "a") (first ∷ []) new_dir synced_dir owned
append_remote_policy_history-IsMerged_example =
    append_remote_policy_history-IsMerged (codes "a") toy-HashLaws
      (code-VecLaws policy_payload_code) (code-LineLaws policy_event_code) (first ∷ []) new_dir
      synced_dir owned tt history_synced
