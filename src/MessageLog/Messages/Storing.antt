-- ===== src/MessageLog/Messages/Storing.antt =====
-- `append_message` of src/store.rs as a whole: a message is stored once and can be read back.
use embernet.Prelude.{
  Bytes, Str, Bool, true, false, ◌++◌, ◌^◌, ◌<◌, some, length, ◌==◌, str_eq, str_beq_iff, ◌≡◌, refl,
  sym, ap, ◌∙◌, Bool-cases, inl, inr, ◌⊎◌,
}
use embernet.Fallible.{ok, ensure, ok-ne-err, true_of_ensure, wrong_channel, missing_directory}
use embernet.Fallible.Actions.{step-eq_ok, proceed-eq_ok, returned}
use embernet.Crates.{Crates, ToVec}
use embernet.Redb.{Redb, RedbLaws}
use embernet.Ndjson.{Json, JsonLaws}
use embernet.Channel.{ChannelDir, open_log, create_channel}
use embernet.Proto.{Message, Envelope, verify}
use embernet.Policy.{ChannelPolicy, PolicyEvent, PolicyEventPayload}
use embernet.PolicyStore.{authorize_append}
use embernet.MessageLog.Index.{Database, index_contains, is_current}
use embernet.MessageLog.Messages.{
  IndexedDir, database, log_of, line_of, create_in, create_log, ensure_index, append_record,
  store_once, read_message_by_id, append_message,
}
use embernet.MessageLog.Messages.Opening.{IsOpen, ensure_index-IsOpen}
use embernet.MessageLog.Messages.Appending.{
  IsRecorded, append_record-IsRecorded, recorded-found, recorded-indexed, recorded-read,
}

create_in-eq :
    ⦃r : Redb⦄ (there : Bool) (s u : IndexedDir)
    → create_in there s ≡ (ok tt, u)
    → u ≡ record s { dir = create_channel s.dir }
create_in-eq false s u h = absurd (ok-ne-err tt missing_directory (ap (λ x. x.0) (sym h)))
create_in-eq true s u h = ap (λ x. x.1) (sym h)

module _ ⦃r : Redb⦄ ⦃k : Crates⦄ ⦃v : ToVec Message⦄ ⦃j : Json Envelope⦄
    ⦃p : ToVec PolicyEventPayload⦄ ⦃policy_json : Json PolicyEvent⦄
    ⦃cache_json : Json ChannelPolicy⦄ (chan : Str) (env : Envelope) where
  -- The steps of an `append_message` that succeeds.
  pub record Appends (s t : IndexedDir) (id : Str) : Type 0 where
    pub opened : IndexedDir
    pub log : Bytes
    pub in_channel : env.channel ≡ chan
    pub authentic : verify env ≡ ok tt
    pub allowed : authorize_append chan env.from (create_channel s.dir) ≡ ok tt
    pub opening : ensure_index (record s { dir = create_channel s.dir }) ≡ (ok tt, opened)
    pub index_open : IsOpen (record s { dir = create_channel s.dir }) opened log
    pub stored : store_once env opened ≡ (ok id, t)

  pub append_message-Appends :
      (s t : IndexedDir) (id : Str)
      → RedbLaws r
      → append_message chan env s ≡ (ok id, t)
      → Appends s t id
  unfolding append_message
  append_message-Appends s t id laws h =
      let (_, c, h₁) = proceed-eq_ok _ (ensure (env.channel == chan) wrong_channel) s t id h in
      let (_, authentic, h₂) = proceed-eq_ok _ (verify env) s t id h₁ in
      let (_, (u, made, h₃)) = step-eq_ok create_log _ s t id h₂ in
      let made_dir : IndexedDir = record s { dir = create_channel s.dir } in
      let (_, allowed, h₄) =
        proceed-eq_ok _ (authorize_append chan env.from (create_channel s.dir)) made_dir t id
          (rw (create_in-eq s.dir.exists s u made) at h₃) in
      let (_, (opened, ready, h₅)) =
        step-eq_ok ensure_index (λ _. store_once env) made_dir t id h₄ in
      let (log, index_open) = ensure_index-IsOpen made_dir opened laws ready in
      record {
        opened = opened;
        opening = ready;
        log = log;
        in_channel =
            (str_beq_iff env.channel chan).0 (true_of_ensure (env.channel == chan) wrong_channel c);
        authentic = authentic;
        allowed = allowed;
        index_open = index_open;
        stored = h₅;
      }

  -- After `append_message` has returned the id of the message, the index holds it and passes the test
  -- that it is current for the log. `opened` is the channel once its index has been brought up to date:
  -- if that index knew the id, nothing else has happened; if it did not, the message stands behind the
  -- old log, no other file has changed, and reading it by its id gives it back and changes nothing.
  pub record IsStored (s t : IndexedDir) (id : Str) : Type 0 where
    pub opened : IndexedDir
    pub log : Bytes
    pub log_after : Bytes
    pub db : Database
    pub same_id : id ≡ env.id
    pub log_before : open_log (create_channel s.dir) ≡ ok log
    pub opening : ensure_index (record s { dir = create_channel s.dir }) ≡ (ok tt, opened)
    pub same_files : opened.dir ≡ create_channel s.dir
    pub has_log : log_of t ≡ ok log_after
    pub has_index : t.index ≡ some db
    pub current : is_current log_after db ≡ true
    pub indexed : index_contains env.id db ≡ true
    pub outcome :
        ((index_contains env.id (database opened) ≡ true) × (t ≡ opened))
        ⊎ ((index_contains env.id (database opened) ≡ false)
            × (t.dir ≡ record (create_channel s.dir) { log = some (log ++ line_of env) })
            × (read_message_by_id chan env.id t ≡ (ok env, t)))

  known-IsStored :
      (s t : IndexedDir) (id : Str) (a : Appends s t id)
      → index_contains env.id (database a.opened) ≡ true
      → IsStored s t id
  unfolding store_once
  known-IsStored s t id a b =
      let o = a.index_open in
      returned (λ u x. IsStored s u x) (rw b at a.stored)
        (record {
          opened = a.opened;
          opening = a.opening;
          same_files = o.files;
          log = a.log;
          log_after = a.log;
          db = o.db;
          same_id = refl;
          log_before = o.has_log;
          has_log = ap open_log o.files ∙ o.has_log;
          has_index = o.has_index;
          current = o.current;
          indexed = rw o.has_index at b;
          outcome = inl (b, refl);
        })

  recorded-IsStored :
      (s t : IndexedDir) (id : Str) (a : Appends s t id)
      → RedbLaws r
      → JsonLaws j
      → length (a.log ++ line_of env) < 2 ^ 64
      → index_contains env.id (database a.opened) ≡ false
      → IsRecorded env a.log a.opened t
      → id ≡ env.id
      → IsStored s t id
  recorded-IsStored s t id a laws json bound unknown m same =
      let o = a.index_open in
      let current = (recorded-found env a.log a.opened t laws m).1 in
      record {
        opened = a.opened;
        opening = a.opening;
        same_files = o.files;
        log = a.log;
        log_after = a.log ++ line_of env;
        db = m.db;
        same_id = same;
        log_before = o.has_log;
        has_log = ap open_log m.files;
        has_index = m.has_index;
        current = current;
        indexed = recorded-indexed env a.log a.opened t laws m;
        outcome = inr (
          unknown,
          m.files ∙ ap (λ (d : ChannelDir). record d { log = some (a.log ++ line_of env) }) o.files,
          recorded-read chan env a.log a.opened t laws json a.in_channel a.authentic bound m,
        );
      }

  new-IsStored :
      (s t : IndexedDir) (id : Str) (a : Appends s t id)
      → RedbLaws r
      → JsonLaws j
      → length (a.log ++ line_of env) < 2 ^ 64
      → index_contains env.id (database a.opened) ≡ false
      → IsStored s t id
  unfolding store_once
  new-IsStored s t id a laws json bound b =
      let o = a.index_open in
      let done : append_record env a.opened ≡ (ok id, t) = rw b at a.stored in
      let (m, same) =
        append_record-IsRecorded env a.log a.opened t id (ap open_log o.files ∙ o.has_log) done in
      recorded-IsStored s t id a laws json bound b m same

  -- A message that is appended without an error is in the index, which is current for the log. If the
  -- index, once it was brought up to date, did not know the id, then the message is the last record of
  -- the log, no other file but the index has changed, and reading the id gives the message back; if it
  -- knew the id, nothing has changed since. The log stays below 2 ^ 64 bytes.
  pub append_message-IsStored :
      (s t : IndexedDir) (id : Str)
      → RedbLaws r
      → JsonLaws j
      → ((log : Bytes)
          → open_log (create_channel s.dir) ≡ ok log
          → length (log ++ line_of env) < 2 ^ 64)
      → append_message chan env s ≡ (ok id, t)
      → IsStored s t id
  append_message-IsStored s t id laws json bound h =
      let a = append_message-Appends s t id laws h in
      elim (Bool-cases (index_contains env.id (database a.opened))) [
        | inl b ↦ known-IsStored s t id a b
        | inr b ↦ new-IsStored s t id a laws json (bound a.log a.index_open.has_log) b
      ]
