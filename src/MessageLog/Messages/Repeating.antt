-- ===== src/MessageLog/Messages/Repeating.antt =====
-- Appending a message twice in src/store.rs: the second time changes nothing.
use embernet.Prelude.{
  Bytes, Str, Bool, true, ◌++◌, ◌^◌, ◌<◌, some, length, str_eq, str_beq_iff, ◌≡◌, refl, sym, ap,
  ◌∙◌, subst, Option-cases, inl, inr,
}
use embernet.Fallible.{ok}
use embernet.Crates.{Crates, ToVec}
use embernet.Redb.{Redb, RedbLaws}
use embernet.Ndjson.{Json, JsonLaws}
use embernet.Channel.{ChannelDir, open_log, create_channel}
use embernet.Proto.{Message, Envelope, verify}
use embernet.Policy.{ChannelPolicy, PolicyEvent, PolicyEventPayload}
use embernet.PolicyStore.{read_policy_cache, read_channel_policy, authorize_append}
use embernet.MessageLog.Index.{Database, index_contains, is_current}
use embernet.MessageLog.Messages.{
  IndexedDir, log_of, line_of, create_in, store_once, append_message,
}
use embernet.MessageLog.Messages.Opening.{ensure_index-idle}
use embernet.MessageLog.Messages.Storing.{
  Appends, append_message-Appends, IsStored, append_message-IsStored,
}

created-again : (d : ChannelDir) → create_channel (create_channel d) ≡ create_channel d
unfolding create_channel
created-again d = elim (Option-cases d.log) [ inl e ↦ rw e refl | inr (l, e) ↦ rw e refl ]

created-logged :
    (d : ChannelDir) (l : Bytes)
    → create_channel (record (create_channel d) { log = some l })
      ≡ record (create_channel d) { log = some l }
unfolding create_channel
created-logged d l = refl

create_in-idle :
    ⦃r : Redb⦄ (there : Bool) (t : IndexedDir)
    → there ≡ true
    → create_channel t.dir ≡ t.dir
    → create_in there t ≡ (ok tt, t)
create_in-idle there t h made = rw (h, made) refl

module _ ⦃r : Redb⦄ ⦃k : Crates⦄ ⦃v : ToVec Message⦄ ⦃j : Json Envelope⦄
    ⦃p : ToVec PolicyEventPayload⦄ ⦃policy_json : Json PolicyEvent⦄
    ⦃cache_json : Json ChannelPolicy⦄ (chan : Str) (env : Envelope) where
  -- The log does not matter to who may append.
  allowed-logged :
      (d : ChannelDir) (l : Bytes)
      → authorize_append chan env.from (record d { log = some l })
        ≡ authorize_append chan env.from d
  unfolding authorize_append read_channel_policy read_policy_cache
  allowed-logged d l = refl

  -- A directory that takes the message and whose log is there.
  record IsReady (d : ChannelDir) : Type 0 where
    there : d.exists ≡ true
    made : create_channel d ≡ d
    allowed : authorize_append chan env.from d ≡ ok tt

  stored-IsReady :
      (s t : IndexedDir) (id : Str)
      → Appends chan env s t id
      → IsStored chan env s t id
      → IsReady t.dir
  unfolding create_channel
  stored-IsReady s t id a o = elim o.outcome [
    | inl (_, e) ↦
        subst IsReady (sym (ap (λ (x : IndexedDir). x.dir) e ∙ o.same_files))
          (record { there = refl; made = created-again s.dir; allowed = a.allowed })
    | inr (_, e, _) ↦ subst IsReady (sym e) (record {
      there = refl;
      made = created-logged s.dir (o.log ++ line_of env);
      allowed = allowed-logged (create_channel s.dir) (o.log ++ line_of env) ∙ a.allowed;
    })
  ]

  append_message-idle :
      (t : IndexedDir) (log : Bytes) (db : Database)
      → IsReady t.dir
      → env.channel ≡ chan
      → verify env ≡ ok tt
      → log_of t ≡ ok log
      → t.index ≡ some db
      → is_current log db ≡ true
      → index_contains env.id db ≡ true
      → append_message chan env t ≡ (ok env.id, t)
  unfolding append_message store_once
  append_message-idle t log db ready c ok_env l i current known =
      rw
        (
          (str_beq_iff env.channel chan).1 c,
          ok_env,
          create_in-idle t.dir.exists t ready.there ready.made,
          ready.allowed,
          ensure_index-idle t log db l i current,
          i,
          known,
        )
        refl

  -- Appending a message a second time returns the same id and changes no file and nothing in the
  -- index. The log stays below 2 ^ 64 bytes.
  pub append-append_message :
      (s t : IndexedDir) (id : Str)
      → RedbLaws r
      → JsonLaws j
      → ((log : Bytes)
          → open_log (create_channel s.dir) ≡ ok log
          → length (log ++ line_of env) < 2 ^ 64)
      → append_message chan env s ≡ (ok id, t)
      → append_message chan env t ≡ (ok id, t)
  append-append_message s t id laws json bound h =
      let a = append_message-Appends chan env s t id laws h in
      let o = append_message-IsStored chan env s t id laws json bound h in
      append_message-idle t o.log_after o.db (stored-IsReady s t id a o) a.in_channel a.authentic
        o.has_log o.has_index o.current o.indexed
      ∙ ap (λ x. (ok x, t)) (sym o.same_id)
