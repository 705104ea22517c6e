-- ===== src/MessageLog/Messages/Indexing.antt =====
-- Appending to a channel of src/store.rs whose index is current for its log: no message leaves the index.
use embernet.Prelude.{
  Bytes, Str, true, ◌++◌, some, str_eq, ◌≡◌, sym, ap, ◌∙◌, Bool-cases, inl, inr, arith,
}
use embernet.Fallible.{Result, ok}
use embernet.Fallible.Actions.{returned}
use embernet.Crates.{Crates, ToVec}
use embernet.Redb.{Redb, RedbLaws}
use embernet.Ndjson.{Json}
use embernet.Channel.{ChannelDir, open_log, create_channel}
use embernet.Proto.{Message, Envelope}
use embernet.Policy.{ChannelPolicy, PolicyEvent, PolicyEventPayload}
use embernet.MessageLog.Index.{Database, index_contains, is_current}
use embernet.MessageLog.Messages.{IndexedDir, database, log_of, line_of, store_once, append_message}
use embernet.MessageLog.Messages.Opening.{ensure_index-idle}
use embernet.MessageLog.Messages.Appending.{
  append_record-IsRecorded, recorded-found, recorded-indexed,
}
use embernet.MessageLog.Messages.Storing.{append_message-Appends}

module _ ⦃r : Redb⦄ where
  -- The index is there and is current: it has the length of the log, and the schema.
  pub record Stands (s : IndexedDir) : Type 0 where
    pub log : Bytes
    pub db : Database
    pub has_log : log_of s ≡ ok log
    pub has_index : s.index ≡ some db
    pub current : is_current log db ≡ true

  -- The index has the id.
  abbrev pub Knows : IndexedDir → Str → Type 0
  Knows s id = index_contains id (database s) ≡ true

  -- `t` comes after `s`: its index is current for its log, and knows every id that was known.
  pub record IsLater (s t : IndexedDir) : Type 0 where
    pub stands : Stands t
    pub keeps : (id : Str) → Knows s id → Knows t id

  created-log :
      (d : ChannelDir) (log : Bytes) → open_log d ≡ ok log → open_log (create_channel d) ≡ ok log
  unfolding create_channel
  created-log d log h = ground arith

  index_contains-insert :
      (laws : RedbLaws r) (id a l : Str) (db db' : Database)
      → db'.messages ≡ r.messages.insert id l db.messages
      → index_contains a db ≡ true
      → index_contains a db' ≡ true
  unfolding index_contains
  index_contains-insert laws id a l db db' e h =
      ground (arith, laws.messages.get_insert id a l db.messages)

  module _ ⦃k : Crates⦄ ⦃v : ToVec Message⦄ ⦃j : Json Envelope⦄ ⦃p : ToVec PolicyEventPayload⦄
      ⦃policy_json : Json PolicyEvent⦄ ⦃cache_json : Json ChannelPolicy⦄ (chan : Str)
      (env : Envelope) where
    store_once-IsLater :
        (s t : IndexedDir) (id : Str)
        → RedbLaws r
        → Stands s
        → store_once env s ≡ (ok id, t)
        → IsLater s t × Knows t env.id
    unfolding store_once
    store_once-IsLater s t id laws now h = elim (Bool-cases (index_contains env.id (database s))) [
      | inl b ↦
          returned (λ u _. IsLater s u × Knows u env.id) (rw b at h)
            (record { stands = now; keeps = λ _ known. known }, b)
      | inr b ↦
          let (m, _) = append_record-IsRecorded env now.log s t id now.has_log (rw b at h) in
          let same = m.has_index in
          (
            record {
              stands = record {
                log = now.log ++ line_of env;
                db = m.db;
                has_log = ap open_log m.files;
                has_index = m.has_index;
                current = (recorded-found env now.log s t laws m).1;
              };
              keeps = λ a known.
                  rw m.has_index (
                    index_contains-insert laws env.id a _ (database s) m.db m.entered.located
                      known);
            },
            rw m.has_index (recorded-indexed env now.log s t laws m),
          )
    ]

    -- A message that is appended to a channel whose index is current for its log is known afterwards, with
    -- all that was known, and the index is current for the log again.
    pub append_message-IsLater :
        (s t : IndexedDir) (id : Str)
        → RedbLaws r
        → Stands s
        → append_message chan env s ≡ (ok id, t)
        → IsLater s t × Knows t env.id
    append_message-IsLater s t id laws now h =
        let a = append_message-Appends chan env s t id laws h in
        let made : IndexedDir = record s { dir = create_channel s.dir } in
        let has_log = created-log s.dir now.log now.has_log in
        let idle = ensure_index-idle made now.log now.db has_log now.has_index now.current in
        let e = ap (λ (x : Result (Unit {0}) × IndexedDir). x.1) (sym idle ∙ a.opening) in
        let ready : Stands made = record {
          log = now.log;
          db = now.db;
          has_log = has_log;
          has_index = now.has_index;
          current = now.current;
        } in
        let (later, known) = store_once-IsLater made t id laws ready (rw (← e) at a.stored) in
        (record { stands = later.stands; keeps = later.keeps }, known)
