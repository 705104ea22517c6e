-- ===== src/MessageLog/Index.antt =====
-- The index of a message log in src/store.rs: `rebuild_index`, `index_insert` and `index_contains`
-- over the tables of redb. A panic counts as an error.
use embernet.Prelude.{
  ℕ, zero, suc, Bytes, Str, Bool, true, false, ◌&&◌, List, [], ◌∷◌, ◌++◌, map, ◌+◌, Option, none,
  some, take, drop, length, leb, is_empty, ◌==◌, nat_eq, option_eq, str_eq, sort, codes,
  if◌then◌else◌,
}
use embernet.Fallible.{Result, ok, ensure, context, bad_hex, bad_message_id, empty_message_id}
use embernet.Fallible.Checks.{◌>>=◌, ◌>>◌}
use embernet.Crates.{Crates, ToVec}
use embernet.Redb.{Redb}
use embernet.Ndjson.{Json}
use embernet.Proto.{Message, Envelope}
use embernet.MessageLog.{ScannedEnvelope, scan_verified_file}
use embernet.MessageLog.Locations.{encode_location}

pub record Database ⦃r : Redb⦄ : Type 0 where
  pub messages : r.messages.Table
  pub metadata : r.metadata.Table
  pub chunks : r.chunks.Table
  pub hashes : r.chunks.Table

abbrev pub log_len : Str
log_len = codes "log_len"

abbrev pub message_count : Str
message_count = codes "message_count"

abbrev pub schema : Str
schema = codes "schema"

abbrev pub bucket_count : ℕ
bucket_count = 256

unfoldable pub concat : List Bytes → Bytes
concat [] = []
concat (b ∷ bs) = b ++ concat bs

-- `chunks_exact(32)`, with the length of the bytes as the number of rounds at hand.
unfoldable pub chunks_of_32 : ℕ → Bytes → List Bytes
chunks_of_32 zero s = []
chunks_of_32 (suc n) s =
    let rest = chunks_of_32 n (drop 32 s) in if leb 32 (length s) then take 32 s ∷ rest else []

abbrev pub chunks_exact : Bytes → List Bytes
chunks_exact s = chunks_of_32 (length s) s

-- `map_or`, and the indexing `bytes[0]`.
abbrev pub or_else {ℓ} : {A : Type ℓ} → A → Option A → A
or_else a none = a
or_else a (some b) = b

abbrev pub first_byte : Bytes → Option ℕ
first_byte [] = none
first_byte (b ∷ s) = some b

module _ ⦃k : Crates⦄ where
  -- The ids as bytes. `bytes[0]` panics on an empty id.
  unfoldable pub decode_ids : List Str → Result (List (ℕ × Bytes))
  decode_ids [] = ok []
  decode_ids (id ∷ ids) = do
    bytes ← context (k.hex_decode id) bad_hex
    first ← context (first_byte bytes) empty_message_id
    more ← decode_ids ids
    ok ((first, bytes) ∷ more)

-- The ids of a bucket, in the order in which they were pushed.
unfoldable pub bucket : ℕ → List (ℕ × Bytes) → List Bytes
bucket i [] = []
bucket i ((first, bytes) ∷ ids) =
    let rest = bucket i ids in if first == i then bytes ∷ rest else rest

module _ ⦃r : Redb⦄ where
  abbrev pub empty_database : Database
  empty_database = record {
    messages = r.messages.empty;
    metadata = r.metadata.empty;
    chunks = r.chunks.empty;
    hashes = r.chunks.empty;
  }

  unfoldable pub write_metadata : ℕ → ℕ → r.metadata.Table → r.metadata.Table
  write_metadata len count t =
      r.metadata.insert schema 2
        (r.metadata.insert message_count count (r.metadata.insert log_len len t))

  unfoldable pub index_locations : List ScannedEnvelope → r.messages.Table → r.messages.Table
  index_locations [] t = t
  index_locations (e ∷ scanned) t =
      index_locations scanned
        (r.messages.insert e.envelope.id (encode_location e.offset e.length) t)

  -- `index_contains`.
  unfoldable pub index_contains : Str → Database → Bool
  index_contains id db = elim (r.messages.get id db.messages) [ none ↦ false | some l ↦ true ]

  module _ ⦃k : Crates⦄ where
    -- The loop over the buckets, `n` of which remain.
    unfoldable pub fill_buckets : ℕ → ℕ → List (ℕ × Bytes) → Database → Database
    fill_buckets zero i ids db = db
    fill_buckets (suc n) i ids db =
        let members = concat (sort (bucket i ids)) in
        fill_buckets n (suc i) ids (
          if is_empty (bucket i ids) then db else record db {
            chunks = r.chunks.insert i members db.chunks;
            hashes = r.chunks.insert i (k.blake3 members) db.hashes;
          })

    -- The tables that `rebuild_index` commits.
    unfoldable pub rebuild_index :
        ⦃v : ToVec Message⦄ → ⦃j : Json Envelope⦄ → Bytes → Result Database
    rebuild_index log = do
      scanned ← scan_verified_file log
      ids ← decode_ids (map (λ (e : ScannedEnvelope). e.envelope.id) scanned)
      let db = record empty_database { messages = index_locations scanned r.messages.empty }
      let filled = fill_buckets bucket_count 0 ids db
      ok (record filled {
        metadata = write_metadata (length log) (length scanned) r.metadata.empty;
      })

    -- The tables that `index_insert` commits.
    unfoldable pub index_insert : Str → ℕ → ℕ → ℕ → Database → Result Database
    index_insert id offset size len db = do
      let count = or_else 0 (r.metadata.get message_count db.metadata)
      bytes ← context (k.hex_decode id) bad_hex
      ensure (length bytes == 32) bad_message_id
      chunk ← context (first_byte bytes) empty_message_id
      let old = or_else [] (r.chunks.get chunk db.chunks)
      let members = concat (sort (chunks_exact (old ++ bytes)))
      ok (record {
        messages = r.messages.insert id (encode_location offset size) db.messages;
        metadata = write_metadata len (count + 1) db.metadata;
        chunks = r.chunks.insert chunk members db.chunks;
        hashes = r.chunks.insert chunk (k.blake3 members) db.hashes;
      })

  -- The test of `ensure_index`.
  unfoldable pub is_current : Bytes → Database → Bool
  is_current log db =
      (r.metadata.get log_len db.metadata == some (length log))
      && (r.metadata.get schema db.metadata == some 2)
