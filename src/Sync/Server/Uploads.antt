-- ===== src/Sync/Server/Uploads.antt =====
-- The upload of the messages that `run_sync` of src/sync.rs has asked for.
use embernet.Prelude.{
  ℕ, Bytes, Str, true, List, [], ◌∷◌, ◌+◌, ◌≡◌, refl, sym, ap, ◌∙◌, subst, length, ◌==◌, str_eq,
  str_beq_iff, beq_refl, All, contains, remove_all, contains-remove_all, Bool-cases, inl, inr,
  arith,
}
use embernet.Fallible.{
  Result, ok, ensure, context, ok-injective, ok-ne-err, true_of_ensure, invalid_json, peer_closed,
  socket_error, unrequested, foreign_envelope,
}
use embernet.Fallible.Checks.{bind-eq_ok}
use embernet.Fallible.Actions.{proceed-eq_ok, step-eq_ok, returned}
use embernet.Crates.{Crates, ToVec}
use embernet.Redb.{Redb, RedbLaws}
use embernet.Ndjson.{Json}
use embernet.Proto.{Message, Envelope, verify}
use embernet.Policy.{ChannelPolicy, PolicyEvent, PolicyEventPayload}
use embernet.MessageLog.Messages.{IndexedDir, append_message}
use embernet.MessageLog.Messages.Indexing.{Stands, Knows, IsLater, append_message-IsLater}
use embernet.Sync.Socket.{Frame, text_frame, other_frame, broken_frame}
use embernet.Sync.Session.{Session, on_node, on_node-eq_ok}
use embernet.Sync.Sets.{IsDistinct, length-remove_all, remove_all-IsDistinct}
use embernet.Sync.{SyncJson}
use embernet.Sync.Server.Transfer.{accept_requested_id, receive_upload, receive_uploads}

accept_requested_id-parts :
    (wanted rest : List Str) (id : Str)
    → accept_requested_id wanted id ≡ ok rest
    → (contains id wanted ≡ true) × (rest ≡ remove_all id wanted)
unfolding accept_requested_id
accept_requested_id-parts wanted rest id h =
    let (_, there, e) = bind-eq_ok (ensure (contains id wanted) unrequested) _ h in
    (true_of_ensure (contains id wanted) unrequested there, sym (ok-injective _ rest e))

module _ ⦃r : Redb⦄ ⦃s : SyncJson⦄ ⦃k : Crates⦄ ⦃v : ToVec Message⦄ ⦃j : Json Envelope⦄
    ⦃p : ToVec PolicyEventPayload⦄ ⦃policy_json : Json PolicyEvent⦄
    ⦃cache_json : Json ChannelPolicy⦄ (chan : Str) where
  -- A message of the upload that is taken was wanted, is no longer wanted, and has been appended.
  record IsTaken (wanted rest : List Str) (x y : Session) : Type 0 where
    env : Envelope
    id : Str
    asked : contains env.id wanted ≡ true
    left : rest ≡ remove_all env.id wanted
    appended : append_message chan env x.node ≡ (ok id, y.node)

  receive_upload-IsTaken :
      (t : Bytes) (wanted rest : List Str) (x y : Session)
      → receive_upload chan t wanted x ≡ (ok rest, y)
      → IsTaken wanted rest x y
  unfolding receive_upload
  receive_upload-IsTaken t wanted rest x y h =
      let (env, _, h₁) = proceed-eq_ok _ (context (j.from_slice t) invalid_json) x y rest h in
      let (more, asked, h₂) = proceed-eq_ok _ (accept_requested_id wanted env.id) x y rest h₁ in
      let (_, _, h₃) =
        proceed-eq_ok _ (ensure (env.channel == chan) foreign_envelope) x y rest h₂ in
      let (_, _, h₄) = proceed-eq_ok _ (verify env) x y rest h₃ in
      let (id, (z, done, h₅)) = step-eq_ok (on_node (append_message chan env)) _ x y rest h₄ in
      let (there, shape) = accept_requested_id-parts wanted more env.id asked in
      let same = ok-injective more rest (ap (λ (q : Result (List Str) × Session). q.0) h₅) in
      record {
        env = env;
        id = id;
        asked = there;
        left = sym same ∙ shape;
        appended =
            subst (λ (n : IndexedDir). append_message chan env x.node ≡ (ok id, n))
              (ap (λ (q : Result (List Str) × Session). q.1.node) h₅)
              (on_node-eq_ok (append_message chan env) x z id done);
      }

  -- What a loop over the uploads has done when it succeeds, with `wanted` messages to come.
  pub record IsReceived (wanted : List Str) (n n' : ℕ) (x y : Session) : Type 0 where
    pub counted : n' ≡ n + length wanted
    pub later : IsLater x.node y.node
    pub all_known : (id : Str) → contains id wanted ≡ true → Knows y.node id

  taken-IsReceived :
      (wanted rest : List Str) (n n' : ℕ) (x z y : Session)
      → RedbLaws r
      → IsDistinct wanted
      → Stands x.node
      → IsTaken wanted rest x z
      → (IsDistinct rest → Stands z.node → IsReceived rest (n + 1) n' z y)
      → IsReceived wanted n n' x y
  taken-IsReceived wanted rest n n' x z y laws d now t more =
      let (step, known) =
        append_message-IsLater chan t.env x.node z.node t.id laws now t.appended in
      let received =
        more (subst IsDistinct (sym t.left) (remove_all-IsDistinct t.env.id wanted d))
          step.stands in
      record {
        counted = omega (
          arith,
          received.counted,
          ap length t.left,
          length-remove_all t.env.id wanted d t.asked,
        );
        later = record {
          stands = received.later.stands;
          keeps = λ id k. received.later.keeps id (step.keeps id k);
        };
        all_known = λ id here. elim (Bool-cases (t.env.id == id)) [
          | inl b ↦
              received.later.keeps id (subst (Knows z.node) ((str_beq_iff t.env.id id).0 b) known)
          | inr b ↦
              received.all_known id (rw (t.left, contains-remove_all t.env.id id wanted, b) here)
        ];
      }

  -- The loop that waits for the wanted messages, on a channel whose index is current for its log.
  pub receive_uploads-IsReceived :
      (frames : List Frame) (wanted : List Str) (n n' : ℕ) (x y : Session)
      → RedbLaws r
      → IsDistinct wanted
      → Stands x.node
      → receive_uploads chan frames wanted n x ≡ (ok n', y)
      → IsReceived wanted n n' x y
  unfolding receive_uploads contains
  receive_uploads-IsReceived frames [] n n' x y laws d now h =
      returned (λ z m. IsReceived [] n m x z) h
        (record {
          counted = omega arith;
          later = record { stands = now; keeps = λ _ known. known };
          all_known = λ id here. cc;
        })
  receive_uploads-IsReceived [] (w ∷ wanted) n n' x y laws d now h =
      absurd (ok-ne-err n' peer_closed (ap (λ (q : Result ℕ × Session). q.0) (sym h)))
  receive_uploads-IsReceived (broken_frame ∷ frames) (w ∷ wanted) n n' x y laws d now h =
      absurd (ok-ne-err n' socket_error (ap (λ (q : Result ℕ × Session). q.0) (sym h)))
  receive_uploads-IsReceived (other_frame ∷ frames) (w ∷ wanted) n n' x y laws d now h =
      receive_uploads-IsReceived frames (w ∷ wanted) n n' x y laws d now h
  receive_uploads-IsReceived (text_frame t ∷ frames) (w ∷ wanted) n n' x y laws d now h =
      let x' : Session = record x { socket = record x.socket { incoming = frames } } in
      let (rest, (z, done, h₁)) = step-eq_ok (receive_upload chan t (w ∷ wanted)) _ x' y n' h in
      let taken = receive_upload-IsTaken t (w ∷ wanted) rest x' z done in
      let all =
        taken-IsReceived (w ∷ wanted) rest n n' x' z y laws d now taken
          λ d' now'. receive_uploads-IsReceived frames rest (n + 1) n' z y laws d' now' h₁ in
      record { counted = all.counted; later = all.later; all_known = all.all_known }

  known_from :
      (d : IndexedDir) (ids : List Str)
      → ((id : Str) → contains id ids ≡ true → Knows d id)
      → All (Knows d) ids
  unfolding contains
  known_from d [] f = tt
  known_from d (x ∷ ids) f =
      (f x (rw (beq_refl x) refl), known_from d ids (λ id h. f id (ground (arith, h))))

  -- If the loop that waits for the wanted messages succeeds on a channel whose index passes the test
  -- that it is current for its log (it has the log's length and the schema), then exactly as many
  -- messages have been taken as distinct ids were wanted, whatever the peer sent and in whatever order;
  -- every wanted id is in the index afterwards, and the index passes that test again.
  pub receive_uploads_lem :
      (frames : List Frame) (wanted : List Str) (n n' : ℕ) (x y : Session)
      → RedbLaws r
      → IsDistinct wanted
      → Stands x.node
      → receive_uploads chan frames wanted n x ≡ (ok n', y)
      → (n' ≡ n + length wanted) × (All (Knows y.node) wanted × Stands y.node)
  receive_uploads_lem frames wanted n n' x y laws d now h =
      let got = receive_uploads-IsReceived frames wanted n n' x y laws d now h in
      (got.counted, (known_from y.node wanted got.all_known, got.later.stands))
