-- ===== src/Mcp/Server/Ending.antt =====
-- The loop of `run_stdio` in src/mcp.rs ends, and meets every message until then.
use embernet.Prelude.{
  ℕ, zero, suc, Bytes, List, ◌++◌, ◌<◌, Option, none, some, length, ◌≡◌, refl, arith, Option-cases,
  inl, inr,
}
use embernet.Fallible.{Error, ok, err}
use embernet.Crates.{Crates, ToVec}
use embernet.Ciphers.{Ciphers}
use embernet.Redb.{Redb}
use embernet.Ndjson.{Json}
use embernet.Proto.{Message, Envelope}
use embernet.Keyring.{ChannelKey}
use embernet.Policy.{ChannelPolicy, PolicyEvent, PolicyEventPayload}
use embernet.Moderation.{ModerationEvent, ModerationEventPayload}
use embernet.Mcp.Framing.{Read, read_mcp_message, frame}
use embernet.Mcp.Framing.Progress.{read_mcp_message-shorter}
use embernet.Mcp.{Values, JsonRpcRequest, parse_error, Handled, Node, Setting, handle_request}
use embernet.Mcp.Server.{
  McpJson, RunEnd, input_ended, read_failed, ServerState, response_of, write_response, after_read,
  answer_request, answer_message, run_stdio,
}

module _ ⦃r : Redb⦄ ⦃k : Crates⦄ ⦃c : Ciphers⦄ ⦃v : ToVec Message⦄ ⦃p : ToVec PolicyEventPayload⦄
    ⦃m : ToVec ModerationEventPayload⦄ ⦃j : Json Envelope⦄ ⦃policy_json : Json PolicyEvent⦄
    ⦃cache_json : Json ChannelPolicy⦄ ⦃moderation_json : Json ModerationEvent⦄
    ⦃key_json : Json (List ChannelKey)⦄ ⦃values : Values⦄ ⦃mcp : McpJson values⦄ where
  -- What the server does with one message: a request that has an id is answered under it by what
  -- `handle_request` gives, one that cannot be read by an error, and a notification not at all.
  pub data Answers (x : Setting) (raw : Bytes) (s : ServerState) : ServerState → Type 0 where
    unreadable :
        mcp.request_from raw ≡ none
        → Answers x raw s
            (write_response (record { id = none; result = none; error = some parse_error }) s)
    notified :
        (q : JsonRpcRequest values)
        → mcp.request_from raw ≡ some q
        → q.id ≡ none
        → Answers x raw s s
    replied :
        (q : JsonRpcRequest values) (id : values.Value) (reply : Handled) (after : Node)
        → mcp.request_from raw ≡ some q
        → q.id ≡ some id
        → handle_request x q s.channels ≡ (reply, after)
        → Answers x raw s (record {
          channels = after;
          written = s.written ++ frame (mcp.response_to (response_of id reply));
        })

  -- A run without fuel: every message of the input is met in turn, from the `i`th setting on, until
  -- the input has ended or cannot be read any further. A run that does not end has no derivation.
  pub data Serves (settings : ℕ → Setting)
      : ℕ → Bytes → ServerState → RunEnd → ServerState → Type 0 where
    ends :
        (i : ℕ) (input rest : Bytes) (s : ServerState)
        → read_mcp_message input ≡ (ok none, rest)
        → Serves settings i input s input_ended s
    breaks :
        (i : ℕ) (input rest : Bytes) (s : ServerState) (e : Error)
        → read_mcp_message input ≡ (err e, rest)
        → Serves settings i input s (read_failed e) s
    meets :
        (i : ℕ) (input raw rest : Bytes) (s t u : ServerState) (end : RunEnd)
        → read_mcp_message input ≡ (ok (some raw), rest)
        → Answers (settings i) raw s t
        → Serves settings (suc i) rest t end u
        → Serves settings i input s end u

  answer_request-Answers :
      (x : Setting) (raw : Bytes) (s : ServerState) (q : JsonRpcRequest values)
      → mcp.request_from raw ≡ some q
      → Answers x raw s (answer_request x q s)
  answer_request-Answers x raw s q e = by_id q.id refl
    where
      by_id :
          (id : Option values.Value)
          → q.id ≡ id
          → Answers x raw s (elim id [
            | none ↦ s
            | some v ↦
                let t = handle_request x q s.channels in
                write_response (response_of v t.0) (record s { channels = t.1 })
          ])
      by_id none f = Answers.notified q e f
      by_id (some v) f =
          let t = handle_request x q s.channels in Answers.replied q v t.0 t.1 e f refl

  answer_message-Answers :
      (x : Setting) (raw : Bytes) (s : ServerState) → Answers x raw s (answer_message x raw s)
  unfolding answer_message
  answer_message-Answers x raw s = elim (Option-cases (mcp.request_from raw)) [
    | inl e ↦ rw (answer_message, e) (Answers.unreadable e)
    | inr (q, e) ↦ rw (answer_message, e) (answer_request-Answers x raw s q e)
  ]

  after_read-Serves :
      (settings : ℕ → Setting) (more : Bytes → Bytes → RunEnd × ServerState) (i : ℕ) (input : Bytes)
      (s : ServerState) (x : Read)
      → read_mcp_message input ≡ x
      → ((raw rest : Bytes)
          → read_mcp_message input ≡ (ok (some raw), rest)
          → Serves settings i input s (more raw rest).0 (more raw rest).1)
      → Serves settings i input s (after_read more x s).0 (after_read more x s).1
  after_read-Serves settings more i input s (err e, rest) h f = Serves.breaks i input rest s e h
  after_read-Serves settings more i input s (ok none, rest) h f = Serves.ends i input rest s h
  after_read-Serves settings more i input s (ok (some raw), rest) h f = f raw rest h

  -- For every input, the loop of the server comes to its end within one round more than the input has
  -- bytes, and until then it meets every message in turn: it writes the answer to each request that has
  -- an id and an error for each message that cannot be read, and nothing for a notification. It ends
  -- only where the input has ended or cannot be read any further.
  pub run_stdio-ends :
      (settings : ℕ → Setting) (i n : ℕ) (input : Bytes) (s : ServerState)
      → length input < n
      → Serves settings i input s
          (run_stdio settings i n input s).0
          (run_stdio settings i n input s).1
  unfolding run_stdio
  run_stdio-ends settings i zero input s h = absurd (omega arith)
  run_stdio-ends settings i (suc n) input s h =
      after_read-Serves settings
        (λ raw rest. run_stdio settings (suc i) n rest (answer_message (settings i) raw s)) i input
        s (read_mcp_message input) refl
        (λ raw rest e.
          let t = answer_message (settings i) raw s in
          let shorter = read_mcp_message-shorter input raw rest e in
          let later = run_stdio-ends settings (suc i) n rest t (omega arith) in
          Serves.meets i input raw rest s t _ _ e (answer_message-Answers (settings i) raw s) later)
