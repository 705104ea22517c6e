-- ===== src/Sync/Server/Inventory.antt =====
-- The comparison of the buckets in `run_sync` of src/sync.rs, and the ids that each side then names.
use embernet.Prelude.{
  ℕ, Bytes, Str, Bool, true, false, ◌&&◌, codes, List, [], ◌∷◌, ◌++◌, map, Option, none, some,
  length, ◌==◌, nat_eq, str_eq, option_eq, if◌then◌else◌,
}
use embernet.Fallible.{
  Result, ok, ensure, context, Action, lift, pure, invalid_json, unexpected_type, bad_chunk_summary,
  unexpected_inventory, bad_message_id, foreign_id,
}
use embernet.Fallible.Checks
use embernet.Fallible.Actions.{◌>>=◌, ◌>>◌}
use embernet.Crates.{Crates, ToVec}
use embernet.Redb.{Redb}
use embernet.Ndjson.{Json}
use embernet.Proto.{Message, Envelope}
use embernet.MessageLog.Index.{first_byte}
use embernet.MessageLog.Messages.{IndexedDir}
use embernet.MessageLog.Reading.{ChunkSummary, chunk_summaries, chunk_ids}
use embernet.Sync.Socket.{Socket, next_text, send}
use embernet.Sync.Session.{Session, on_node, on_socket}
use embernet.Sync.Sets.{distinct, subset, sort_indices}
use embernet.Sync.{SyncJson, ChunkIds, ChunkBatch}

-- A `HashMap` from the indices to the hashes: the last entry of an index counts.
unfoldable pub hash_of : ℕ → List ChunkSummary → Option Str
hash_of i [] = none
hash_of i (s ∷ chunks) = elim (hash_of i chunks) [
  | some h ↦ some h
  | none ↦ if s.index == i then some s.hash else none
]

abbrev pub indices : List ChunkSummary → List ℕ
indices = map (λ (s : ChunkSummary). s.index)

unfoldable pub where_different : List ChunkSummary → List ChunkSummary → List ℕ → List ℕ
where_different server client [] = []
where_different server client (i ∷ l) =
    let rest = where_different server client l in
    if hash_of i server == hash_of i client then rest else i ∷ rest

-- The indices whose hashes differ, sorted.
unfoldable pub differing : List ChunkSummary → List ChunkSummary → List ℕ
differing server client =
    sort_indices (where_different server client (distinct (indices server ++ indices client)))

module _ ⦃k : Crates⦄ where
  abbrev pub is_hash : Str → Bool
  is_hash h = elim (k.hex_decode h) [ none ↦ false | some bytes ↦ length bytes == 32 ]

  abbrev pub all_hashes : List ChunkSummary → Bool
  all_hashes [] = true
  all_hashes (s ∷ chunks) = is_hash s.hash && all_hashes chunks

  unfoldable pub check_summaries : List ChunkSummary → Result (Unit {0})
  check_summaries client =
      ensure (length (distinct (indices client)) == length client && all_hashes client)
        bad_chunk_summary

  abbrev pub belongs_to : ℕ → Bytes → Bool
  belongs_to index bytes = length bytes == 32 && first_byte bytes == some index

  -- The ids of a bucket begin with its number.
  unfoldable pub check_ids : ℕ → List Str → Result (Unit {0})
  check_ids index [] = ok tt
  check_ids index (id ∷ ids) =
      Checks.◌>>=◌ (context (k.hex_decode id) bad_message_id)
        λ bytes. Checks.◌>>◌ (ensure (belongs_to index bytes) foreign_id) (check_ids index ids)

  unfoldable pub check_all_ids : List ChunkIds → Result (Unit {0})
  check_all_ids [] = ok tt
  check_all_ids (b ∷ chunks) = Checks.◌>>◌ (check_ids b.index b.ids) (check_all_ids chunks)

abbrev pub chunk_indices : List ChunkIds → List ℕ
chunk_indices = map (λ (b : ChunkIds). b.index)

-- What the peer returns stands for the buckets that it was asked for, each once.
unfoldable pub check_batch : List ℕ → List ChunkIds → Result (Unit {0})
check_batch expected chunks =
    let returned = distinct (chunk_indices chunks) in
    ensure
      (subset returned expected && subset expected returned && length returned == length chunks)
      unexpected_inventory

-- The buckets that differ, as either side has them.
pub record Inventory : Type 0 where
  pub server_chunks : List ChunkIds
  pub client_chunks : List ChunkIds

module _ ⦃r : Redb⦄ ⦃s : SyncJson⦄ ⦃k : Crates⦄ ⦃v : ToVec Message⦄ ⦃j : Json Envelope⦄ where
  -- The ids of each bucket that is named.
  unfoldable pub collect_chunks : List ℕ → Action IndexedDir (List ChunkIds)
  collect_chunks [] = pure []
  collect_chunks (i ∷ l) = do
    ids ← chunk_ids i
    more ← collect_chunks l
    pure ((record { index = i; ids = ids }) ∷ more)

  unfoldable pub read_chunk_batch : Action Socket ChunkBatch
  read_chunk_batch = do
    t ← next_text
    batch ← lift (context (s.batch.from_slice t) invalid_json)
    lift (ensure (batch.msg_type == codes "chunk_ids") unexpected_type)
    pure batch

  unfoldable pub compare_buckets : List ChunkSummary → Action Session Inventory
  compare_buckets client = do
    server ← on_node chunk_summaries
    lift (check_summaries client)
    let different = differing server client
    server_chunks ← on_node (collect_chunks different)
    on_socket (
        send (
          s.diff.to_vec (record {
            msg_type = codes "chunk_diff";
            chunks = server_chunks;
            want_chunks = different;
          })))
    batch ← on_socket read_chunk_batch
    lift (check_batch different batch.chunks)
    lift (check_all_ids batch.chunks)
    pure (record { server_chunks = server_chunks; client_chunks = batch.chunks })
