-- ===== src/Examples/ConflictCases.antt =====
-- Two restrictions of one channel: Alice resolves the fork. Long texts are cut to 32 bytes when
-- they are read as hexadecimal, so that the toy hashes count as identifiers.
use embernet.Prelude.{
  str_beq, codes, [], ◌∷◌, none, some, ◌≡◌, refl, str_eq, take, beq_refl, ltb, length,
  if◌then◌else◌,
}
use embernet.Fallible.{ok}
use embernet.Fallible.Actions.{IsAtomicAt}
use embernet.Crates.{Crates}
use embernet.Proto.{verify_bytes}
use embernet.Channel.{ChannelDir, read_file}
use embernet.Ndjson.{encode_lines}
use embernet.Ndjson.Laws.{read-encode}
use embernet.PolicyStore.Changes.Effects.{read_history_of_ndjson}
use embernet.Policy.{PolicyEvent, restrict}
use embernet.Policy.Actions.{validate_public_key, apply_policy_action}
use embernet.Policy.History.{check_policy_event, replay_policy, derive_policy}
use embernet.PolicyStore.Conflicts.Plan.{Resolution, plan_resolution}
use embernet.PolicyStore.Conflicts.{resolve_policy_conflict}
use embernet.PolicyStore.Conflicts.Effects.{
  resolve_policy_conflict-IsResolved, resolve_policy_conflict-IsAtomicAt, IsResolved, resolve-eq,
  resolved,
}
use embernet.Examples.Codes.{code-LineLaws}
use embernet.Examples.Toy.{toy}
use embernet.Examples.Wire.{
  policy_payload_vec, policy_event_json, policy_cache_json, policy_event_code,
}
use embernet.Examples.People.{first, key_of, event_by}
use embernet.Examples.StoreCases.{new_dir, owned}

abbrev pub short : Crates
short = record toy { hex_decode = λ s. some (if ltb 64 (length s) then take 32 s else s) }

-- Bob restricts the channel for himself.
abbrev pub rival : PolicyEvent
rival = event_by 2 none (restrict (key_of 2))

abbrev forked_dir : ChannelDir
forked_dir = record new_dir {
  policy_log = some (encode_lines (rival ∷ []));
  policy_conflicts = (first.id, encode_lines (first ∷ [])) ∷ [];
}

fork_found : read_file first.id forked_dir.policy_conflicts ≡ some (encode_lines (first ∷ []))
unfolding read_file str_beq
fork_found = refl

pub fork_valid : derive_policy ⦃k = short⦄ (codes "a") (first ∷ []) ≡ ok owned
unfolding derive_policy replay_policy check_policy_event verify_bytes apply_policy_action
    validate_public_key str_beq
fork_valid = refl

rival_valid :
    derive_policy ⦃k = short⦄ (codes "a") (rival ∷ [])
    ≡ ok (record owned { owner = some (key_of 2) })
unfolding derive_policy replay_policy check_policy_event verify_bytes apply_policy_action
    validate_public_key str_beq
rival_valid = refl

abbrev plan : Resolution
plan = record { events = first ∷ []; policy = owned; current = rival ∷ [] }

fork_planned : plan_resolution ⦃k = short⦄ (codes "a") first.id forked_dir ≡ ok plan
unfolding plan_resolution validate_public_key
fork_planned =
    rw
      (
        fork_found,
        read-encode (code-LineLaws policy_event_code) (first ∷ []),
        fork_valid,
        read_history_of_ndjson ⦃k = short⦄ (codes "a") (encode_lines (rival ∷ [])) (rival ∷ [])
            (record owned { owner = some (key_of 2) })
            (read-encode (code-LineLaws policy_event_code) (rival ∷ [])) rival_valid,
        beq_refl first.id,
      )
      refl

abbrev resolved_dir : ChannelDir
resolved_dir = resolved ⦃k = short⦄ (codes "a") first.id plan forked_dir

resolve_policy_conflict-IsResolved_example :
    IsResolved ⦃k = short⦄ (codes "a") first.id forked_dir resolved_dir owned
resolve_policy_conflict-IsResolved_example =
    resolve_policy_conflict-IsResolved ⦃k = short⦄ (codes "a") first.id forked_dir resolved_dir
      owned (code-LineLaws policy_event_code)
      (resolve-eq ⦃k = short⦄ (codes "a") first.id plan forked_dir fork_planned)

-- Without the saved fork there is nothing to resolve.
resolve_policy_conflict-IsAtomicAt_example :
    IsAtomicAt (resolve_policy_conflict ⦃k = short⦄ (codes "a") first.id) new_dir
resolve_policy_conflict-IsAtomicAt_example =
    resolve_policy_conflict-IsAtomicAt ⦃k = short⦄ (codes "a") first.id new_dir
