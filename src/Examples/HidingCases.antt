-- ===== src/Examples/HidingCases.antt =====
-- Alice tombstones a greeting in a channel that she owns.
use embernet.Prelude.{
  Bytes, str_beq, codes, true, [], ◌∷◌, none, some, ◌≡◌, ◌≢◌, refl, str_eq, nat_eq, length,
  contains, All, arith,
}
use embernet.Fallible.{ok}
use embernet.Ndjson.{encode_lines}
use embernet.Ndjson.Laws.{read-encode}
use embernet.Proto.{Envelope, verify, verify_bytes, sign_bytes, signing_key}
use embernet.Channel.{ChannelDir}
use embernet.Policy.Actions.{validate_public_key, apply_policy_action}
use embernet.Policy.History.{check_policy_event, replay_policy, derive_policy}
use embernet.PolicyStore.{read_policy_history}
use embernet.PolicyStore.Changes.Effects.{read_history_of_ndjson}
use embernet.Moderation.Tombstones.{ModerationState, no_tombstones, insert, get}
use embernet.Moderation.{
  ModerationEvent, tombstone, position, policy_at, may_moderate, apply_moderation,
  check_moderation_event, replay_moderation, derive_moderation, sign_moderation_event,
}
use embernet.ModerationStore.{
  validate_moderation_history, read_moderation, read_moderation_history, moderation_state,
}
use embernet.ModerationStore.Changes.Plan.{plan_moderation_action}
use embernet.ModerationStore.Changes.{append_moderation_action}
use embernet.ModerationStore.Changes.Effects.{append_moderation_action-IsModerated}
use embernet.MessageLog.Locations.{to_be_bytes, from_be_bytes, encode_location, decode_location}
use embernet.MessageLog.Index.{Database, write_metadata, is_current}
use embernet.MessageLog.Messages.{IndexedDir, ensure_index, line_of, read_message_by_id}
use embernet.MessageLog.Messages.Opening.{ensure_index-idle}
use embernet.MessageLog.Messages.Appending.{IsRecorded, recorded-read, read_indexed-end}
use embernet.MessageLog.Reading.{
  locate, insert_latest, latest_first, read_visible, reverse_onto, read_channel_tail,
  read_channel_tail_with_options, tombstone_message,
}
use embernet.MessageLog.Visible.{IsView, read_channel_tail-IsView}
use embernet.MessageLog.Hiding.{tombstone_message-hides}
use embernet.Examples.Codes.{code-LineLaws}
use embernet.Examples.Tables.{toy_redb, toy-RedbLaws, envelope_json, envelope-JsonLaws}
use embernet.Examples.Wire.{message_vec, policy_payload_vec, policy_event_json, policy_event_code}
use embernet.Examples.ModerationWire.{
  moderation_payload_vec, moderation_event_json, moderation_state_json, moderation_event_code,
  ruling_by_alice,
}
use embernet.Examples.People.{alice, first, greeting}
use embernet.Examples.StoreCases.{new_dir, owned}
use embernet.Examples.LogCases.{padded}

abbrev line : Bytes
line = line_of ⦃k = padded⦄ greeting

abbrev owned_dir : ChannelDir
owned_dir = record new_dir { policy_log = some (encode_lines (first ∷ [])); log = some line }

abbrev one_message : Database
one_message = record {
  messages = (greeting.id, encode_location 0 (length line)) ∷ [];
  metadata = write_metadata (length line) 1 [];
  chunks = [];
  hashes = [];
}

abbrev before : IndexedDir
before = record { dir = owned_dir; index = some one_message }

greeting-IsRecorded :
    IsRecorded ⦃k = padded⦄ greeting []
      (record { dir = record owned_dir { log = some [] }; index = none })
      before
greeting-IsRecorded = record {
  db = one_message;
  files = refl;
  has_index = refl;
  entered = record { count = 1; located = refl; counted = refl };
}

greeting_authentic : verify ⦃k = padded⦄ greeting ≡ ok tt
unfolding verify str_beq
greeting_authentic = refl

greeting_read :
    read_message_by_id ⦃k = padded⦄ (codes "a") greeting.id before ≡ (ok greeting, before)
greeting_read =
    recorded-read ⦃k = padded⦄ (codes "a") greeting []
      (record { dir = record owned_dir { log = some [] }; index = none }) before toy-RedbLaws
      envelope-JsonLaws refl greeting_authentic (omega arith) greeting-IsRecorded

owner_valid : derive_policy ⦃k = padded⦄ (codes "a") (first ∷ []) ≡ ok owned
unfolding derive_policy replay_policy check_policy_event verify_bytes apply_policy_action
    validate_public_key str_beq
owner_valid = refl

policy_read : read_policy_history ⦃k = padded⦄ (codes "a") owned_dir ≡ ok (first ∷ [])
policy_read =
    read_history_of_ndjson ⦃k = padded⦄ (codes "a") (encode_lines (first ∷ [])) (first ∷ []) owned
      (read-encode (code-LineLaws policy_event_code) (first ∷ [])) owner_valid

abbrev ruling : ModerationEvent
ruling = ruling_by_alice 3 none (tombstone greeting.id none)

abbrev hidden : ModerationState
hidden = record { tombstoned = (greeting.id, none) ∷ [] }

ruling_signed :
    sign_moderation_event ⦃k = padded⦄
      (codes "a")
      alice
      3
      none
      first.id
      (tombstone greeting.id none)
    ≡ ok ruling
unfolding sign_moderation_event sign_bytes signing_key
ruling_signed = refl

ruling_valid : derive_moderation ⦃k = padded⦄ (codes "a") (first ∷ []) (ruling ∷ []) ≡ ok hidden
unfolding derive_moderation replay_moderation check_moderation_event policy_at position may_moderate
    apply_moderation insert derive_policy replay_policy check_policy_event verify_bytes
    apply_policy_action validate_public_key str_beq contains
ruling_valid = refl

abbrev hidden_dir : ChannelDir
hidden_dir = record owned_dir {
  moderation_log = some (encode_lines (ruling ∷ []));
  moderation_cache = some (moderation_state_json.to_vec hidden);
}

alice_rules :
    append_moderation_action ⦃k = padded⦄ (codes "a") alice 3 (tombstone greeting.id none) owned_dir
    ≡ (ok hidden, hidden_dir)
unfolding append_moderation_action plan_moderation_action read_moderation
    validate_moderation_history
alice_rules = rw (policy_read, ruling_signed, ruling_valid) refl

abbrev after : IndexedDir
after = record { dir = hidden_dir; index = some one_message }

alice_tombstones :
    tombstone_message ⦃k = padded⦄ (codes "a") alice 3 greeting.id none before ≡ (ok hidden, after)
unfolding tombstone_message
alice_tombstones = rw (greeting_read, alice_rules) refl

hidden_now : moderation_state ⦃k = padded⦄ (codes "a") hidden_dir ≡ ok hidden
hidden_now =
    (append_moderation_action-IsModerated ⦃k = padded⦄ (codes "a") alice 3
      (tombstone greeting.id none) owned_dir hidden_dir hidden (code-LineLaws moderation_event_code)
      tt alice_rules).current

index_current : is_current line one_message ≡ true
unfolding is_current write_metadata str_beq
index_current = refl

index_ready : ensure_index ⦃k = padded⦄ after ≡ (ok tt, after)
index_ready = ensure_index-idle ⦃k = padded⦄ after line one_message refl refl index_current

tail_read : read_channel_tail ⦃k = padded⦄ (codes "a") 2 after ≡ (ok [], after)
unfolding read_channel_tail read_channel_tail_with_options locate decode_location encode_location
    to_be_bytes from_be_bytes latest_first insert_latest read_visible get str_beq reverse_onto
tail_read = rw (hidden_now, index_ready) refl

tombstone_message-hides_example :
    (get greeting.id hidden.tombstoned ≡ some none)
    × (moderation_state ⦃k = padded⦄ (codes "a") hidden_dir ≡ ok hidden)
    × All (λ (e : Envelope). e.id ≢ greeting.id) []
tombstone_message-hides_example =
    tombstone_message-hides ⦃k = padded⦄ (codes "a") alice 3 greeting.id none before after after
      hidden 1 [] toy-RedbLaws (code-LineLaws moderation_event_code) tt alice_tombstones tail_read

visible_before : moderation_state ⦃k = padded⦄ (codes "a") owned_dir ≡ ok no_tombstones
unfolding moderation_state read_moderation_history read_moderation validate_moderation_history
    derive_moderation replay_moderation
visible_before = rw policy_read refl

ready_before : ensure_index ⦃k = padded⦄ before ≡ (ok tt, before)
ready_before = ensure_index-idle ⦃k = padded⦄ before line one_message refl refl index_current

tail_before : read_channel_tail ⦃k = padded⦄ (codes "a") 2 before ≡ (ok (greeting ∷ []), before)
unfolding read_channel_tail read_channel_tail_with_options locate decode_location encode_location
    to_be_bytes from_be_bytes latest_first insert_latest read_visible get str_beq reverse_onto
tail_before =
    rw
      (
        visible_before,
        ready_before,
        read_indexed-end ⦃k = padded⦄ [] (codes "a") greeting envelope-JsonLaws refl
            greeting_authentic,
      )
      refl

read_channel_tail-IsView_example :
    (moderation : ModerationState) × (moderation_state ⦃k = padded⦄ (codes "a") owned_dir
      ≡ ok moderation)
    × IsView ⦃k = padded⦄ (codes "a") moderation 2 (greeting ∷ [])
read_channel_tail-IsView_example =
    read_channel_tail-IsView ⦃k = padded⦄ (codes "a") 1 before before (greeting ∷ []) tail_before
