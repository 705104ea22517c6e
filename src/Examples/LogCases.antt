-- ===== src/Examples/LogCases.antt =====
-- The log of a new channel: Alice's greeting is stored. Identifiers are padded or cut to 32 bytes
-- when they are read as hexadecimal, so that the toy hashes count as identifiers.
use embernet.Prelude.{
  Bytes, str_beq, codes, [], ◌++◌, none, some, ◌≡◌, refl, str_eq, nat_eq, take, ◌==◌, length,
  if◌then◌else◌, sort, ◌^◌, ◌<◌, arith,
}
use embernet.Fallible.{ok, ok-injective}
use embernet.Crates.{Crates}
use embernet.Proto.{verify}
use embernet.Channel.{create_channel, open_log}
use embernet.Policy.{policy_allows_append}
use embernet.PolicyStore.{read_policy_cache, read_channel_policy, authorize_append}
use embernet.MessageLog.{raw_lines, scan_lines, scan_verified_file}
use embernet.MessageLog.Locations.{to_be_bytes, encode_location}
use embernet.MessageLog.Index.{
  concat, chunks_of_32, decode_ids, bucket, write_metadata, index_locations, index_contains,
  fill_buckets, rebuild_index, index_insert, is_current,
}
use embernet.MessageLog.Messages.{
  IndexedDir, ensure_index, append_record, store_once, append_message, line_of,
}
use embernet.MessageLog.Messages.Storing.{IsStored, append_message-IsStored}
use embernet.MessageLog.Messages.Repeating.{append-append_message}
use embernet.Examples.Toy.{toy, repeat}
use embernet.Examples.Tables.{toy_redb, toy-RedbLaws, envelope_json, envelope-JsonLaws}
use embernet.Examples.Wire.{message_vec, policy_payload_vec, policy_event_json, policy_cache_json}
use embernet.Examples.People.{greeting}
use embernet.Examples.StoreCases.{new_dir}

abbrev pub padded : Crates
padded = record toy {
  hex_decode = λ s. some (if length s == 64 then s else take 32 (s ++ repeat 32 0));
}

abbrev new_channel : IndexedDir
new_channel = record { dir = new_dir; index = none }

abbrev pub after_greeting : IndexedDir
after_greeting = (append_message ⦃k = padded⦄ (codes "a") greeting new_channel).1

greeting_stored :
    append_message ⦃k = padded⦄ (codes "a") greeting new_channel ≡ (ok greeting.id, after_greeting)
unfolding append_message store_once ensure_index append_record verify create_channel
    authorize_append read_channel_policy read_policy_cache policy_allows_append rebuild_index
    scan_verified_file scan_lines raw_lines decode_ids index_locations fill_buckets bucket
    write_metadata is_current index_contains index_insert chunks_of_32 concat sort encode_location
    to_be_bytes str_beq
greeting_stored = refl

short_log :
    (log : Bytes)
    → open_log (create_channel new_dir) ≡ ok log
    → length (log ++ line_of ⦃k = padded⦄ greeting) < 2 ^ 64
unfolding create_channel
short_log log h = rw (← ok-injective [] log h) (omega arith)

append_message-IsStored_example :
    IsStored ⦃k = padded⦄ (codes "a") greeting new_channel after_greeting greeting.id
append_message-IsStored_example =
    append_message-IsStored ⦃k = padded⦄ (codes "a") greeting new_channel after_greeting greeting.id
      toy-RedbLaws envelope-JsonLaws short_log greeting_stored

append-append_message_example :
    append_message ⦃k = padded⦄ (codes "a") greeting after_greeting
    ≡ (ok greeting.id, after_greeting)
append-append_message_example =
    append-append_message ⦃k = padded⦄ (codes "a") greeting new_channel after_greeting greeting.id
      toy-RedbLaws envelope-JsonLaws short_log greeting_stored
