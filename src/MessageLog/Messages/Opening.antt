-- ===== src/MessageLog/Messages/Opening.antt =====
-- What `ensure_index` of src/store.rs ensures: an index that is current for the log as it is.
use embernet.Prelude.{
  ℕ, Bytes, true, some, length, nat_eq, option_eq, str_eq, str_beq, nat_beq_iff, ◌≡◌, refl, sym, ap,
  Bool-cases, inl, inr,
}
use embernet.Fallible.{ok, ok-injective}
use embernet.Fallible.Actions.{proceed-eq_ok, returned}
use embernet.Fallible.Checks.{bind-eq_ok}
use embernet.Crates.{Crates, ToVec}
use embernet.Redb.{Redb, RedbLaws}
use embernet.Ndjson.{Json}
use embernet.Proto.{Message, Envelope}
use embernet.MessageLog.{scan_verified_file}
use embernet.MessageLog.Index.{
  Database, log_len, message_count, schema, write_metadata, rebuild_index, is_current, decode_ids,
}
use embernet.MessageLog.Messages.{IndexedDir, database, log_of, write_index, ensure_index}

module _ ⦃r : Redb⦄ (laws : RedbLaws r) where
  -- Metadata that was just written names the length and the schema.
  pub is_current_written :
      (log : Bytes) (count : ℕ) (t : r.metadata.Table) (db : Database)
      → db.metadata ≡ write_metadata (length log) count t
      → is_current log db ≡ true
  unfolding is_current write_metadata str_beq
  is_current_written log count t db h =
      let a = r.metadata.insert log_len (length log) t in
      let b = r.metadata.insert message_count count a in
      rw
        (
          h,
          laws.metadata.get_insert schema log_len 2 b,
          laws.metadata.get_insert message_count log_len count a,
          laws.metadata.get_insert log_len log_len (length log) t,
          laws.metadata.get_insert schema schema 2 b,
          (nat_beq_iff (length log) (length log)).1 refl,
        )
        refl

module _ ⦃r : Redb⦄ ⦃k : Crates⦄ ⦃v : ToVec Message⦄ ⦃j : Json Envelope⦄ where
  rebuild-metadata :
      (log : Bytes) (db : Database)
      → rebuild_index log ≡ ok db
      → (count : ℕ) × (db.metadata ≡ write_metadata (length log) count r.metadata.empty)
  unfolding rebuild_index
  rebuild-metadata log db h =
      let (scanned, _, h₁) = bind-eq_ok (scan_verified_file log) _ h in
      let (ids, _, h₂) = bind-eq_ok (decode_ids _) _ h₁ in
      (length scanned, ap (λ (x : Database). x.metadata) (sym (ok-injective _ db h₂)))

  -- An index that is up to date is left alone.
  pub ensure_index-idle :
      (s : IndexedDir) (log : Bytes) (db : Database)
      → log_of s ≡ ok log
      → s.index ≡ some db
      → is_current log db ≡ true
      → ensure_index s ≡ (ok tt, s)
  unfolding ensure_index
  ensure_index-idle s log db l i c = rw (l, i, c) refl

  -- The files are as they were, and the index is there and is current for the log.
  pub record IsOpen (s t : IndexedDir) (log : Bytes) : Type 0 where
    pub db : Database
    pub files : t.dir ≡ s.dir
    pub has_log : log_of s ≡ ok log
    pub has_index : t.index ≡ some db
    pub current : is_current log db ≡ true

  pub ensure_index-IsOpen :
      (s t : IndexedDir) → RedbLaws r → ensure_index s ≡ (ok tt, t) → (log : Bytes) × IsOpen s t log
  unfolding ensure_index
  ensure_index-IsOpen s t laws h =
      let (log, has_log, h₁) = proceed-eq_ok _ (log_of s) s t tt h in
      elim (Bool-cases (is_current log (database s))) [
        | inl c ↦
            let old : IsOpen s (record s { index = some (database s) }) log = record {
              db = database s;
              files = refl;
              has_log = has_log;
              has_index = refl;
              current = c;
            } in
            (log, returned (λ u _. IsOpen s u log) (rw c at h₁) old)
        | inr c ↦
            let (db, built, h₂) =
              proceed-eq_ok (λ db. write_index db) (rebuild_index log)
                (record s { index = some (database s) }) t tt (rw c at h₁) in
            let (count, m) = rebuild-metadata log db built in
            let new : IsOpen s (record s { index = some db }) log = record {
              db = db;
              files = refl;
              has_log = has_log;
              has_index = refl;
              current = is_current_written laws log count r.metadata.empty db m;
            } in
            (log, returned (λ u _. IsOpen s u log) h₂ new)
      ]
