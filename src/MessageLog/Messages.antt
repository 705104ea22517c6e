-- ===== src/MessageLog/Messages.antt =====
-- Appending to a channel's log and reading single messages in src/store.rs, over the files and the
-- index: `ensure_index`, `append_message`, `read_message_by_id`.
pub mod Opening
pub mod Appending
pub mod Storing
pub mod Repeating
pub mod Indexing
use embernet.Prelude.{
  ℕ, Bytes, Str, Bool, true, false, List, [], ◌∷◌, ◌++◌, ◌+◌, Option, none, some, length, ◌==◌,
  nat_eq, str_eq, if◌then◌else◌,
}
use embernet.Fallible.{
  Result, ok, err, ensure, context, Action, reads, lift, pure, writes, wrong_channel,
  missing_directory, not_indexed,
}
use embernet.Fallible.Checks
use embernet.Fallible.Actions.{◌>>=◌, ◌>>◌}
use embernet.Crates.{Crates, ToVec}
use embernet.Redb.{TableOps, Redb}
use embernet.Ndjson.{Json}
use embernet.Channel.{ChannelDir, open_log, create_channel}
use embernet.Proto.{Message, Envelope, verify}
use embernet.Policy.{ChannelPolicy, PolicyEvent, PolicyEventPayload}
use embernet.PolicyStore.{authorize_append}
use embernet.MessageLog.{read_indexed_envelope}
use embernet.MessageLog.Locations.{decode_location}
use embernet.MessageLog.Index.{
  Database, empty_database, index_contains, index_insert, rebuild_index, is_current, or_else,
}

-- A channel with its index, which is `none` where there is no file yet.
pub record IndexedDir ⦃r : Redb⦄ : Type 0 where
  pub dir : ChannelDir
  pub index : Option Database

module _ ⦃r : Redb⦄ where
  -- The tables of the index file, which is created where it is not there.
  abbrev pub database : IndexedDir → Database
  database s = or_else empty_database s.index

  abbrev pub write_index : Database → Action IndexedDir (Unit {0})
  write_index db = writes (λ s. record s { index = some db })

  abbrev pub log_of : IndexedDir → Result Bytes
  log_of s = open_log s.dir

  -- Opening the log with `create`, where the directory is there or not.
  abbrev pub create_in : Bool → Action IndexedDir (Unit {0})
  create_in false s = (err missing_directory, s)
  create_in true s = (ok tt, record s { dir = create_channel s.dir })

  abbrev pub create_log : Action IndexedDir (Unit {0})
  create_log s = create_in s.dir.exists s

  module _ ⦃k : Crates⦄ ⦃v : ToVec Message⦄ ⦃j : Json Envelope⦄ where
    unfoldable pub ensure_index : Action IndexedDir (Unit {0})
    ensure_index = do
      log ← reads log_of
      writes (λ s. record s { index = some (database s) })
      current ← reads (λ s. ok (is_current log (database s)))
      if current then pure tt else (do db ← lift (rebuild_index log); write_index db)

    -- The record of a message in the log.
    abbrev pub line_of : Envelope → Bytes
    line_of env = j.to_vec env ++ b'\n' ∷ []

    -- Writing the record, and its entry in the index.
    unfoldable pub append_record : Envelope → Action IndexedDir Str
    append_record env = do
      log ← reads log_of
      let line = line_of env
      writes (λ s. record s { dir = record s.dir { log = some (log ++ line) } })
      db ←
          reads (λ s.
            index_insert env.id (length log) (length line) (length (log ++ line)) (database s))
      write_index db
      pure env.id

    -- Storing the message unless the index has its id already.
    unfoldable pub store_once : Envelope → Action IndexedDir Str
    store_once env = do
      known ← reads (λ s. ok (index_contains env.id (database s)))
      if known then pure env.id else append_record env

    unfoldable pub read_message_by_id : Str → Str → Action IndexedDir Envelope
    read_message_by_id chan id = do
      log ← reads log_of
      ensure_index
      value ← reads (λ s. context (r.messages.get id (database s).messages) not_indexed)
      location ← lift (decode_location value)
      lift (read_indexed_envelope log chan id location.0 location.1)

    module _ ⦃p : ToVec PolicyEventPayload⦄ ⦃policy_json : Json PolicyEvent⦄
        ⦃cache_json : Json ChannelPolicy⦄ where
      unfoldable pub append_message : Str → Envelope → Action IndexedDir Str
      append_message chan env = do
        lift (ensure (env.channel == chan) wrong_channel)
        lift (verify env)
        create_log
        reads (λ s. authorize_append chan env.from s.dir)
        ensure_index
        store_once env
