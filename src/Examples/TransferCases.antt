-- ===== src/Examples/TransferCases.antt =====
-- Alice's greeting is uploaded to a channel that has an index and no message.
use embernet.Prelude.{
  Str, str_beq, codes, List, [], ◌∷◌, some, none, ◌≡◌, refl, ◌⊎◌, inl, All, contains, remove_all,
  true, str_eq, ◌+◌, length, sort,
}
use embernet.Fallible.{ok}
use embernet.Proto.{verify}
use embernet.Channel.{create_channel}
use embernet.Policy.{policy_allows_append}
use embernet.PolicyStore.{read_policy_cache, read_channel_policy, authorize_append}
use embernet.MessageLog.{raw_lines, scan_lines, scan_verified_file}
use embernet.MessageLog.Locations.{to_be_bytes, encode_location}
use embernet.MessageLog.Index.{
  concat, chunks_of_32, decode_ids, bucket, write_metadata, index_locations, index_contains,
  fill_buckets, rebuild_index, index_insert, is_current, Database,
}
use embernet.MessageLog.Messages.{
  IndexedDir, ensure_index, append_record, store_once, append_message,
}
use embernet.MessageLog.Messages.Indexing.{Stands, Knows}
use embernet.Sync.{complete}
use embernet.Sync.Socket.{text_frame, other_frame, send}
use embernet.Sync.Session.{Session}
use embernet.Sync.Sets.{distinct, difference}
use embernet.Sync.Server.Inventory.{Inventory}
use embernet.Sync.Server.Transfer.{
  all_ids, Transfer, accept_requested_id, plan_transfer, receive_upload, receive_uploads,
  send_messages, exchange_messages,
}
use embernet.Sync.Server.Uploads.{receive_uploads_lem}
use embernet.Sync.Server.Convergence.{IterationLaws}
use embernet.Sync.Server.Completeness.{exchange_messages-IsComplete}
use embernet.Examples.Toy.{toy}
use embernet.Examples.Tables.{toy_redb, toy-RedbLaws, envelope_json}
use embernet.Examples.Wire.{message_vec, policy_payload_vec, policy_event_json, policy_cache_json}
use embernet.Examples.SyncWire.{toy_sync_json}
use embernet.Examples.People.{greeting}
use embernet.Examples.StoreCases.{new_dir}
use embernet.Examples.LogCases.{padded}

abbrev in_order : List Str → List Str
in_order ids = ids

in_order-IterationLaws : IterationLaws in_order
in_order-IterationLaws = record { same = λ a l. refl; once = λ l d. d }

abbrev inventory : Inventory
inventory = record {
  server_chunks = [];
  client_chunks = (record { index = 1; ids = greeting.id ∷ [] }) ∷ [];
}

abbrev plan : Transfer
plan = record { wanted_from_client = greeting.id ∷ []; to_client = [] }

planned : plan_transfer in_order inventory ≡ ok plan
unfolding plan_transfer distinct all_ids contains difference
planned = refl

abbrev empty_channel : IndexedDir
empty_channel = record { dir = create_channel new_dir; index = none }

abbrev pub indexed : IndexedDir
indexed = (ensure_index ⦃k = padded⦄ empty_channel).1

abbrev before : Session
before = record {
  node = indexed;
  socket = record {
    incoming = other_frame ∷ text_frame (envelope_json.to_vec greeting) ∷ [];
    sent = [];
    room = 9;
  };
}

abbrev database_of : IndexedDir → Database
database_of d = elim d.index [
  | some db ↦ db
  | none ↦ record { messages = []; metadata = []; chunks = []; hashes = [] }
]

indexed-Stands : Stands indexed
unfolding create_channel ensure_index rebuild_index scan_verified_file scan_lines raw_lines
    decode_ids index_locations fill_buckets bucket is_current chunks_of_32 concat write_metadata
    str_beq
indexed-Stands = record {
  log = [];
  db = database_of indexed;
  has_log = refl;
  has_index = refl;
  current = refl;
}

abbrev wanted : List Str
wanted = greeting.id ∷ []

abbrev after_upload : Session
after_upload = (receive_uploads ⦃k = padded⦄ (codes "a") before.socket.incoming wanted 0 before).1

uploaded :
    receive_uploads ⦃k = padded⦄ (codes "a") before.socket.incoming wanted 0 before
    ≡ (ok 1, after_upload)
unfolding receive_uploads receive_upload accept_requested_id append_message store_once ensure_index
    append_record verify create_channel authorize_append read_channel_policy read_policy_cache
    policy_allows_append rebuild_index scan_verified_file scan_lines raw_lines decode_ids
    index_locations fill_buckets bucket write_metadata is_current index_contains index_insert
    chunks_of_32 concat sort encode_location to_be_bytes str_beq contains remove_all
uploaded = refl

receive_uploads_lem_example :
    (1 ≡ 0 + length wanted) × (All (Knows after_upload.node) wanted × Stands after_upload.node)
unfolding contains
receive_uploads_lem_example =
    receive_uploads_lem ⦃k = padded⦄ (codes "a") before.socket.incoming wanted 0 1 before
      after_upload toy-RedbLaws (refl, tt) indexed-Stands uploaded

abbrev after_exchange : Session
after_exchange = (exchange_messages ⦃k = padded⦄ (codes "a") in_order inventory before).1

exchanged :
    exchange_messages ⦃k = padded⦄ (codes "a") in_order inventory before ≡ (ok tt, after_exchange)
unfolding exchange_messages plan_transfer distinct difference all_ids send send_messages complete
    receive_uploads receive_upload accept_requested_id append_message store_once ensure_index
    append_record verify create_channel authorize_append read_channel_policy read_policy_cache
    policy_allows_append rebuild_index scan_verified_file scan_lines raw_lines decode_ids
    index_locations fill_buckets bucket write_metadata is_current index_contains index_insert
    chunks_of_32 concat sort encode_location to_be_bytes str_beq contains remove_all
exchanged = refl

exchange_messages-IsComplete_example :
    Stands after_exchange.node
    × ((contains greeting.id (all_ids inventory.server_chunks) ≡ true)
        ⊎ Knows after_exchange.node greeting.id)
unfolding contains all_ids str_beq
exchange_messages-IsComplete_example =
    exchange_messages-IsComplete ⦃k = padded⦄ (codes "a") in_order inventory before after_exchange
      greeting.id toy-RedbLaws in_order-IterationLaws indexed-Stands exchanged (inl refl)
