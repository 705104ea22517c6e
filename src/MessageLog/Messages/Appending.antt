-- ===== src/MessageLog/Messages/Appending.antt =====
-- What `append_message` of src/store.rs does to the log and the index, and that the message can then
-- be read back by its id.
use embernet.Prelude.{
  ℕ, Bytes, Str, true, [], ◌∷◌, ◌++◌, ◌+◌, ◌^◌, ◌<◌, some, take, length, length-append, drop_front,
  ◌==◌, nat_eq, str_eq, beq_refl, str_beq_iff, ◌≡◌, refl, sym, ap, arith,
}
use embernet.Fallible.{
  ok, ensure, context, pure, ok-injective, bad_hex, bad_message_id, empty_message_id,
}
use embernet.Fallible.Actions.{◌>>◌, proceed-eq_ok, returned}
use embernet.Fallible.Checks.{bind-eq_ok}
use embernet.Crates.{Crates, ToVec}
use embernet.Redb.{Redb, RedbLaws}
use embernet.Ndjson.{Json, JsonLaws}
use embernet.Channel.{ChannelDir, open_log}
use embernet.Proto.{Message, Envelope, verify}
use embernet.MessageLog.{pop_newline, read_exact, read_indexed_envelope}
use embernet.MessageLog.Locations.{encode_location, encode-decode_location}
use embernet.MessageLog.Index.{
  Database, write_metadata, index_insert, index_contains, is_current, first_byte, or_else,
  message_count,
}
use embernet.MessageLog.Messages.{
  IndexedDir, database, log_of, line_of, write_index, append_record, read_message_by_id,
}
use embernet.MessageLog.Messages.Opening.{is_current_written, ensure_index-idle}

pop_newline-line : (s : Bytes) → pop_newline (s ++ b'\n' ∷ []) ≡ some s
unfolding pop_newline
pop_newline-line [] = refl
pop_newline-line (c ∷ []) = refl
pop_newline-line (c ∷ d ∷ s) = rw (pop_newline-line (d ∷ s)) refl

whole_line : (line : Bytes) → take (length line) line ≡ line
whole_line [] = refl
whole_line (c ∷ line) = rw (whole_line line)

-- The last bytes of a file are read where they start.
read_exact-end : (log line : Bytes) → read_exact (length log) (length line) (log ++ line) ≡ ok line
unfolding read_exact
read_exact-end log line = rw (drop_front (length log) log line refl, whole_line line) (ground arith)

module _ ⦃k : Crates⦄ ⦃v : ToVec Message⦄ ⦃j : Json Envelope⦄ where
  pub read_indexed-end :
      (log : Bytes) (chan : Str) (env : Envelope)
      → JsonLaws j
      → env.channel ≡ chan
      → verify env ≡ ok tt
      → read_indexed_envelope
          (log ++ (j.to_vec env ++ b'\n' ∷ []))
          chan
          env.id
          (length log)
          (length (j.to_vec env ++ b'\n' ∷ []))
        ≡ ok env
  unfolding read_indexed_envelope
  read_indexed-end log chan env laws c ok_env =
      rw
        (
          read_exact-end log (j.to_vec env ++ b'\n' ∷ []),
          pop_newline-line (j.to_vec env),
          laws.read_back env,
          beq_refl env.id,
          (str_beq_iff env.channel chan).1 c,
          ok_env,
        )
        refl

module _ ⦃r : Redb⦄ ⦃k : Crates⦄ where
  -- The entries that `index_insert` makes.
  pub record IsEntered (id : Str) (offset size len : ℕ) (old db : Database) : Type 0 where
    pub count : ℕ
    pub located : db.messages ≡ r.messages.insert id (encode_location offset size) old.messages
    pub counted : db.metadata ≡ write_metadata len count old.metadata

  index_insert-IsEntered :
      (id : Str) (offset size len : ℕ) (old db : Database)
      → index_insert id offset size len old ≡ ok db
      → IsEntered id offset size len old db
  unfolding index_insert
  index_insert-IsEntered id offset size len old db h =
      let (bytes, _, h₁) = bind-eq_ok (context (k.hex_decode id) bad_hex) _ h in
      let (_, _, h₂) = bind-eq_ok (ensure (length bytes == 32) bad_message_id) _ h₁ in
      let (chunk, _, h₃) = bind-eq_ok (context (first_byte bytes) empty_message_id) _ h₂ in
      let e = ok-injective _ db h₃ in
      record {
        count = or_else 0 (r.metadata.get message_count old.metadata) + 1;
        located = ap (λ (x : Database). x.messages) (sym e);
        counted = ap (λ (x : Database). x.metadata) (sym e);
      }

module _ ⦃r : Redb⦄ ⦃k : Crates⦄ ⦃v : ToVec Message⦄ ⦃j : Json Envelope⦄ where
  -- `t` is `u` with the record of the message behind the log, and the index has its location.
  pub record IsRecorded (env : Envelope) (log : Bytes) (u t : IndexedDir) : Type 0 where
    pub db : Database
    pub files : t.dir ≡ record u.dir { log = some (log ++ line_of env) }
    pub has_index : t.index ≡ some db
    pub entered :
        IsEntered env.id
          (length log)
          (length (line_of env))
          (length (log ++ line_of env))
          (database u)
          db

  pub append_record-IsRecorded :
      (env : Envelope) (log : Bytes) (u t : IndexedDir) (id : Str)
      → log_of u ≡ ok log
      → append_record env u ≡ (ok id, t)
      → IsRecorded env log u t × (id ≡ env.id)
  unfolding append_record
  append_record-IsRecorded env log u t id l h =
      let line = line_of env in
      let (db, inserted, done) =
        proceed-eq_ok (λ db. write_index db >> pure env.id)
          (index_insert env.id (length log) (length line) (length (log ++ line)) (database u))
          (record u { dir = record u.dir { log = some (log ++ line) } }) t id (rw l at h) in
      let found =
        index_insert-IsEntered env.id (length log) (length line) (length (log ++ line)) (database u)
          db inserted in
      returned (λ x y. IsRecorded env log u x × (y ≡ env.id)) done
        (record { db = db; files = refl; has_index = refl; entered = found }, refl)

  -- What was recorded is found, and the index is up to date.
  pub recorded-found :
      (env : Envelope) (log : Bytes) (u t : IndexedDir)
      → RedbLaws r
      → (m : IsRecorded env log u t)
      → (r.messages.get env.id m.db.messages
          ≡ some (encode_location (length log) (length (line_of env))))
        × (is_current (log ++ line_of env) m.db ≡ true)
  recorded-found env log u t laws m = (
    rw
        (
          m.entered.located,
          laws.messages.get_insert env.id env.id _ (database u).messages,
          beq_refl env.id,
        )
        refl,
    is_current_written laws (log ++ line_of env) m.entered.count (database u).metadata m.db
        m.entered.counted,
  )

  pub recorded-indexed :
      (env : Envelope) (log : Bytes) (u t : IndexedDir)
      → RedbLaws r
      → (m : IsRecorded env log u t) → index_contains env.id m.db ≡ true
  unfolding index_contains
  recorded-indexed env log u t laws m =
      rw (index_contains, (recorded-found env log u t laws m).0) refl

  pub recorded-read :
      (chan : Str) (env : Envelope) (log : Bytes) (u t : IndexedDir)
      → RedbLaws r
      → JsonLaws j
      → env.channel ≡ chan
      → verify env ≡ ok tt
      → length (log ++ line_of env) < 2 ^ 64
      → IsRecorded env log u t
      → read_message_by_id chan env.id t ≡ (ok env, t)
  unfolding read_message_by_id
  recorded-read chan env log u t laws json c ok_env bound m =
      let (found, current) = recorded-found env log u t laws m in
      let opened : log_of t ≡ ok (log ++ line_of env) =
        ap (λ (d : ChannelDir). open_log d) m.files in
      let sizes = length-append log (line_of env) in
      rw
        (
          opened,
          ensure_index-idle t (log ++ line_of env) m.db opened m.has_index current,
          m.has_index,
          found,
          encode-decode_location (length log) (length (line_of env)) (omega (arith, sizes))
              (omega (arith, sizes)),
          read_indexed-end log chan env json c ok_env,
        )
        refl
