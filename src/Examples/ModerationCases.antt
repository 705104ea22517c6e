-- ===== src/Examples/ModerationCases.antt =====
-- Moderation of a channel: Alice, who owns it, tombstones a message.
use embernet.Prelude.{
  str_beq, codes, [], ◌∷◌, none, some, ◌≡◌, refl, str_eq, All, is_prefix, contains, beq_refl,
}
use embernet.Fallible.{ok}
use embernet.Crates.{HashLaws}
use embernet.Ndjson.{encode_lines}
use embernet.Ndjson.Laws.{read-encode}
use embernet.Proto.{verify_bytes, sign_bytes, signing_key}
use embernet.Channel.{ChannelDir, read_file}
use embernet.Policy.Actions.{validate_public_key, apply_policy_action}
use embernet.Policy.History.{check_policy_event, replay_policy, derive_policy}
use embernet.PolicyStore.{read_policy_history}
use embernet.PolicyStore.Changes.Effects.{read_history_of_ndjson}
use embernet.Moderation.Tombstones.{ModerationState, insert, get}
use embernet.Moderation.{
  ModerationEvent, tombstone, position, policy_at, may_moderate, apply_moderation,
  check_moderation_event, replay_moderation, derive_moderation, sign_moderation_event,
}
use embernet.Moderation.Replay.{IsAuthorized, derive_moderation-IsAuthorized}
use embernet.Moderation.Verdict.{verdict, derive_moderation-verdict}
use embernet.Moderation.Prefix.{is_moderation_prefix}
use embernet.ModerationStore.{validate_moderation_history, read_moderation}
use embernet.ModerationStore.Reading.{read_moderation_of_ndjson}
use embernet.ModerationStore.Changes.Plan.{plan_moderation_action}
use embernet.ModerationStore.Changes.{append_moderation_action}
use embernet.ModerationStore.Changes.Effects.{IsModerated, append_moderation_action-IsModerated}
use embernet.ModerationStore.Remote.Plan.{plan_remote_moderation}
use embernet.ModerationStore.Remote.{append_remote_moderation_history}
use embernet.ModerationStore.Remote.Effects.{
  IsMergedModeration, append_remote_moderation_history-IsMergedModeration,
}
use embernet.ModerationStore.Conflicts.Plan.{ModerationResolution, plan_moderation_resolution}
use embernet.ModerationStore.Conflicts.Effects.{
  moderation_resolved, resolve_moderation-eq, IsResolved, resolve_moderation_conflict-IsResolved,
}
use embernet.Examples.Codes.{code-VecLaws, code-LineLaws}
use embernet.Examples.Wire.{policy_payload_vec, policy_event_json, policy_event_code}
use embernet.Examples.ModerationWire.{
  moderation_payload_vec, moderation_event_json, moderation_state_json, moderation_payload_code,
  moderation_event_code, ruling_by_alice,
}
use embernet.Examples.People.{key_of, alice, first}
use embernet.Examples.StoreCases.{new_dir, owned}
use embernet.Examples.ConflictCases.{short, fork_valid}

short-HashLaws : HashLaws short
short-HashLaws = record { hex-injective = λ a b e. e; blake3-injective = λ a b e. e }

abbrev spam : ModerationEvent
spam = ruling_by_alice 3 none (tombstone (key_of 9) none)

abbrev tombstoned_nine : ModerationState
tombstoned_nine = record { tombstoned = (key_of 9, none) ∷ [] }

spam_valid : derive_moderation ⦃k = short⦄ (codes "a") (first ∷ []) (spam ∷ []) ≡ ok tombstoned_nine
unfolding derive_moderation replay_moderation check_moderation_event policy_at position may_moderate
    apply_moderation insert derive_policy replay_policy check_policy_event verify_bytes
    apply_policy_action validate_public_key str_beq contains
spam_valid = refl

derive_moderation-IsAuthorized_example :
    All (IsAuthorized ⦃k = short⦄ (codes "a") (first ∷ [])) (spam ∷ [])
derive_moderation-IsAuthorized_example =
    derive_moderation-IsAuthorized ⦃k = short⦄ (codes "a") (first ∷ []) (spam ∷ []) tombstoned_nine
      spam_valid

derive_moderation-verdict_example :
    get (key_of 9) tombstoned_nine.tombstoned ≡ verdict (key_of 9) (spam ∷ [])
derive_moderation-verdict_example =
    derive_moderation-verdict ⦃k = short⦄ (codes "a") (first ∷ []) (spam ∷ []) tombstoned_nine
      (key_of 9) spam_valid

abbrev policy_dir : ChannelDir
policy_dir = record new_dir { policy_log = some (encode_lines (first ∷ [])) }

policy_read : read_policy_history ⦃k = short⦄ (codes "a") policy_dir ≡ ok (first ∷ [])
policy_read =
    read_history_of_ndjson ⦃k = short⦄ (codes "a") (encode_lines (first ∷ [])) (first ∷ []) owned
      (read-encode (code-LineLaws policy_event_code) (first ∷ [])) fork_valid

abbrev spam_dir : ChannelDir
spam_dir = record policy_dir {
  moderation_log = some (encode_lines (spam ∷ []));
  moderation_cache = some (moderation_state_json.to_vec tombstoned_nine);
}

spam_signed :
    sign_moderation_event ⦃k = short⦄ (codes "a") alice 3 none first.id (tombstone (key_of 9) none)
    ≡ ok spam
unfolding sign_moderation_event sign_bytes signing_key
spam_signed = refl

alice_tombstones :
    append_moderation_action ⦃k = short⦄ (codes "a") alice 3 (tombstone (key_of 9) none) policy_dir
    ≡ (ok tombstoned_nine, spam_dir)
unfolding append_moderation_action plan_moderation_action read_moderation
    validate_moderation_history
alice_tombstones = rw (policy_read, spam_signed, spam_valid) refl

append_moderation_action-IsModerated_example :
    IsModerated ⦃k = short⦄
      (codes "a")
      alice
      3
      (tombstone (key_of 9) none)
      policy_dir
      spam_dir
      tombstoned_nine
append_moderation_action-IsModerated_example =
    append_moderation_action-IsModerated ⦃k = short⦄ (codes "a") alice 3 (tombstone (key_of 9) none)
      policy_dir spam_dir tombstoned_nine (code-LineLaws moderation_event_code) tt alice_tombstones

spam_planned : plan_remote_moderation ⦃k = short⦄ (codes "a") (spam ∷ []) policy_dir ≡ ok []
unfolding plan_remote_moderation read_moderation validate_moderation_history is_moderation_prefix
    is_prefix
spam_planned = rw (policy_read, spam_valid) refl

spam_valid_later :
    validate_moderation_history ⦃k = short⦄
      (codes "a")
      (spam ∷ [])
      (record policy_dir { moderation_log = some (encode_lines (spam ∷ [])) })
    ≡ ok tombstoned_nine
unfolding validate_moderation_history
spam_valid_later = rw (policy_read, spam_valid) refl

spam_arrives :
    append_remote_moderation_history ⦃k = short⦄ (codes "a") (spam ∷ []) policy_dir
    ≡ (ok tombstoned_nine, spam_dir)
unfolding append_remote_moderation_history
spam_arrives = rw (spam_planned, spam_valid_later) refl

append_remote_moderation_history-IsMergedModeration_example :
    IsMergedModeration ⦃k = short⦄ (codes "a") (spam ∷ []) policy_dir spam_dir tombstoned_nine
append_remote_moderation_history-IsMergedModeration_example =
    append_remote_moderation_history-IsMergedModeration ⦃k = short⦄ (codes "a") short-HashLaws
      (code-VecLaws moderation_payload_code) (code-LineLaws moderation_event_code) (spam ∷ [])
      policy_dir spam_dir tombstoned_nine tt spam_arrives

-- The same tombstone, made at another time elsewhere.
abbrev later_spam : ModerationEvent
later_spam = ruling_by_alice 4 none (tombstone (key_of 9) none)

later_valid :
    derive_moderation ⦃k = short⦄ (codes "a") (first ∷ []) (later_spam ∷ []) ≡ ok tombstoned_nine
unfolding derive_moderation replay_moderation check_moderation_event policy_at position may_moderate
    apply_moderation insert derive_policy replay_policy check_policy_event verify_bytes
    apply_policy_action validate_public_key str_beq contains
later_valid = refl

abbrev forked_dir : ChannelDir
forked_dir = record policy_dir {
  moderation_log = some (encode_lines (later_spam ∷ []));
  moderation_conflicts = (spam.id, encode_lines (spam ∷ [])) ∷ [];
}

fork_found : read_file spam.id forked_dir.moderation_conflicts ≡ some (encode_lines (spam ∷ []))
unfolding read_file str_beq
fork_found = refl

later_read :
    read_moderation ⦃k = short⦄ (codes "a") forked_dir.moderation_log forked_dir
    ≡ ok (later_spam ∷ [])
later_read =
    read_moderation_of_ndjson ⦃k = short⦄ (codes "a") (encode_lines (later_spam ∷ [])) forked_dir
      (later_spam ∷ []) tombstoned_nine
      (read-encode (code-LineLaws moderation_event_code) (later_spam ∷ []))
      (unfold validate_moderation_history in rw (policy_read, later_valid) refl)

abbrev plan : ModerationResolution
plan = record { events = spam ∷ []; state = tombstoned_nine; current = later_spam ∷ [] }

fork_planned : plan_moderation_resolution ⦃k = short⦄ (codes "a") spam.id forked_dir ≡ ok plan
unfolding plan_moderation_resolution validate_public_key validate_moderation_history
fork_planned =
    rw
      (
        fork_found,
        read-encode (code-LineLaws moderation_event_code) (spam ∷ []),
        beq_refl spam.id,
        policy_read,
        spam_valid,
        later_read,
      )
      refl

resolve_moderation_conflict-IsResolved_example :
    IsResolved ⦃k = short⦄
      (codes "a")
      spam.id
      forked_dir
      (moderation_resolved ⦃k = short⦄ (codes "a") spam.id plan forked_dir)
      tombstoned_nine
resolve_moderation_conflict-IsResolved_example =
    resolve_moderation_conflict-IsResolved ⦃k = short⦄ (codes "a") spam.id forked_dir
      (moderation_resolved ⦃k = short⦄ (codes "a") spam.id plan forked_dir) tombstoned_nine
      (code-LineLaws moderation_event_code)
      (resolve_moderation-eq ⦃k = short⦄ (codes "a") spam.id plan forked_dir fork_planned)
