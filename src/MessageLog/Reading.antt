-- ===== src/MessageLog/Reading.antt =====
-- Listing a channel's messages and buckets in src/store.rs: `read_channel_tail_with_options`,
-- `chunk_summaries` and `chunk_ids`; and `tombstone_message`, which looks its target up.
use embernet.Prelude.{
  ℕ, zero, suc, Bytes, Str, Bool, true, false, ◌&&◌, not, List, [], ◌∷◌, map, ◌/◌, ◌%◌, Option,
  none, some, length, leb, ◌==◌, nat_eq, if◌then◌else◌,
}
use embernet.Fallible.{
  Result, ok, ensure, context, Action, reads, lift, pure, missing_chunk_hash, bad_chunk,
}
use embernet.Fallible.Checks
use embernet.Fallible.Actions.{◌>>=◌, ◌>>◌}
use embernet.Crates.{Crates, ToVec}
use embernet.Redb.{Redb}
use embernet.Ndjson.{Json}
use embernet.Channel.{ChannelDir}
use embernet.Proto.{KeypairFile, Message, Envelope}
use embernet.Policy.{PolicyEvent, PolicyEventPayload}
use embernet.Moderation.Tombstones.{ModerationState, no_tombstones, get}
use embernet.Moderation.{tombstone, ModerationEvent, ModerationEventPayload}
use embernet.ModerationStore.{moderation_state}
use embernet.ModerationStore.Changes.{append_moderation_action}
use embernet.MessageLog.{read_indexed_envelope}
use embernet.MessageLog.Locations.{decode_location}
use embernet.MessageLog.Index.{chunks_exact}
use embernet.MessageLog.Messages.{IndexedDir, database, log_of, ensure_index, read_message_by_id}

-- An indexed message: its place in the log and its id.
pub record Located : Type 0 where
  pub offset : ℕ
  pub length : ℕ
  pub id : Str

pub record ChunkSummary : Type 0 where
  pub index : ℕ
  pub count : ℕ
  pub hash : Str

-- `sort_by_key` with `Reverse(offset)`, which is stable.
unfoldable pub insert_latest : Located → List Located → List Located
insert_latest x [] = x ∷ []
insert_latest x (y ∷ l) = if leb y.offset x.offset then x ∷ y ∷ l else y ∷ insert_latest x l

unfoldable pub latest_first : List Located → List Located
latest_first [] = []
latest_first (x ∷ l) = insert_latest x (latest_first l)

unfoldable pub locate : List (Str × Bytes) → Result (List Located)
locate [] = ok []
locate ((id, value) ∷ entries) = Checks.◌>>=◌ (decode_location value) λ p.
    Checks.◌>>=◌ (locate entries)
      λ more. ok ((record { offset = p.0; length = p.1; id = id }) ∷ more)

-- `Vec::reverse`.
unfoldable pub reverse_onto : List Envelope → List Envelope → List Envelope
reverse_onto out [] = out
reverse_onto out (e ∷ l) = reverse_onto (e ∷ out) l

abbrev pub is_tombstoned : Str → ModerationState → Bool
is_tombstoned id s = elim (get id s.tombstoned) [ none ↦ false | some reason ↦ true ]

module _ ⦃k : Crates⦄ ⦃v : ToVec Message⦄ ⦃j : Json Envelope⦄ where
  -- The loop that reads up to `n` messages that are not hidden.
  unfoldable pub read_visible :
      Bytes → Str → Bool → ModerationState → ℕ → List Located → Result (List Envelope)
  read_visible log chan all moderation zero l = ok []
  read_visible log chan all moderation (suc n) [] = ok []
  read_visible log chan all moderation (suc n) (x ∷ l) =
      let hidden = read_visible log chan all moderation (suc n) l in
      let rest = read_visible log chan all moderation n l in
      if not all && is_tombstoned x.id moderation
      then hidden
      else (Checks.◌>>=◌ (read_indexed_envelope log chan x.id x.offset x.length)
          λ env. Checks.◌>>=◌ rest λ more. ok (env ∷ more))

module _ ⦃r : Redb⦄ ⦃k : Crates⦄ ⦃v : ToVec Message⦄ ⦃j : Json Envelope⦄ where
  -- The summaries of the buckets in the order of the table.
  unfoldable pub summarise : r.chunks.Table → List (ℕ × Bytes) → Result (List ChunkSummary)
  summarise hashes [] = ok []
  summarise hashes ((i, members) ∷ chunks) =
      Checks.◌>>=◌ (context (r.chunks.get i hashes) missing_chunk_hash) λ hash.
        Checks.◌>>=◌ (summarise hashes chunks) λ more.
          ok ((record { index = i; count = length members / 32; hash = k.hex_encode hash }) ∷ more)

  unfoldable pub chunk_summaries : Action IndexedDir (List ChunkSummary)
  chunk_summaries = do
    reads log_of
    ensure_index
    reads (λ s. summarise (database s).hashes (r.chunks.entries (database s).chunks))

  unfoldable pub ids_of_chunk : Option Bytes → Result (List Str)
  ids_of_chunk none = ok []
  ids_of_chunk (some members) =
      Checks.◌>>◌ (ensure (length members % 32 == 0) bad_chunk)
        (ok (map k.hex_encode (chunks_exact members)))

  unfoldable pub chunk_ids : ℕ → Action IndexedDir (List Str)
  chunk_ids chunk = do
    reads log_of
    ensure_index
    reads (λ s. ids_of_chunk (r.chunks.get chunk (database s).chunks))

  module _ ⦃m : ToVec ModerationEventPayload⦄ ⦃p : ToVec PolicyEventPayload⦄
      ⦃policy_json : Json PolicyEvent⦄ ⦃moderation_json : Json ModerationEvent⦄ (chan : Str) where
    -- What hides messages from the reader.
    abbrev pub moderation_for : Bool → IndexedDir → Result ModerationState
    moderation_for true s = ok no_tombstones
    moderation_for false s = moderation_state chan s.dir

    unfoldable pub read_channel_tail_with_options : ℕ → Bool → Action IndexedDir (List Envelope)
    read_channel_tail_with_options zero all = pure []
    read_channel_tail_with_options (suc n) all = do
      moderation ← reads (moderation_for all)
      log ← reads log_of
      ensure_index
      located ← reads (λ s. locate (r.messages.entries (database s).messages))
      envelopes ← lift (read_visible log chan all moderation (suc n) (latest_first located))
      pure (reverse_onto [] envelopes)

    unfoldable pub read_channel_tail : ℕ → Action IndexedDir (List Envelope)
    read_channel_tail n = read_channel_tail_with_options n false

    module _ ⦃state_json : Json ModerationState⦄ where
      -- An operation on the files of the channel only.
      abbrev pub on_files : Action ChannelDir ModerationState → Action IndexedDir ModerationState
      on_files act s = ((act s.dir).0, record s { dir = (act s.dir).1 })

      unfoldable pub tombstone_message :
          KeypairFile → ℕ → Str → Option Str → Action IndexedDir ModerationState
      tombstone_message signer now target reason = do
        read_message_by_id chan target
        on_files (append_moderation_action chan signer now (tombstone target reason))
