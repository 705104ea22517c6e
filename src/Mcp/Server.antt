-- ===== src/Mcp/Server.antt =====
-- The loop of the MCP server in src/mcp.rs: `run_stdio`.
pub mod Ending
use embernet.Prelude.{ℕ, zero, suc, Bytes, Str, List, [], ◌∷◌, ◌++◌, Option, none, some}
use embernet.Fallible.{Result, Error, ok, err}
use embernet.Crates.{Crates, ToVec}
use embernet.Ciphers.{Ciphers}
use embernet.Redb.{Redb}
use embernet.Ndjson.{Json}
use embernet.Proto.{Message, Envelope}
use embernet.Keyring.{ChannelKey}
use embernet.Policy.{ChannelPolicy, PolicyEvent, PolicyEventPayload}
use embernet.Moderation.{ModerationEvent, ModerationEventPayload}
use embernet.Mcp.Framing.{Read, read_mcp_message, frame}
use embernet.Mcp.{
  Values, JsonRpcRequest, McpResult, JsonRpcError, parse_error, Handled, failed, handled, Node,
  Setting, handle_request,
}

-- The id is `null` where the request could not be read.
pub record JsonRpcResponse (values : Values) : Type 0 where
  pub id : Option values.Value
  pub result : Option McpResult
  pub error : Option JsonRpcError

-- `serde_json` at requests and responses.
pub record McpJson (values : Values) : Type 0 where
  pub request_from : Bytes → Option (JsonRpcRequest values)
  pub response_to : JsonRpcResponse values → Bytes

abbrev pub response_of : {values : Values} → values.Value → Handled → JsonRpcResponse values
response_of id (handled result) = record { id = some id; result = some result; error = none }
response_of id (failed e) = record { id = some id; result = none; error = some e }

-- How the loop ends: the input has ended, or reading has failed; `ran_out` is the model's own.
pub data RunEnd : Type 0 where
  input_ended ran_out : RunEnd
  read_failed : Error → RunEnd

module _ ⦃r : Redb⦄ where
  -- The channels, and what has been written.
  pub record ServerState : Type 0 where
    pub channels : Node
    pub written : Bytes

module _ ⦃r : Redb⦄ ⦃k : Crates⦄ ⦃c : Ciphers⦄ ⦃v : ToVec Message⦄ ⦃p : ToVec PolicyEventPayload⦄
    ⦃m : ToVec ModerationEventPayload⦄ ⦃j : Json Envelope⦄ ⦃policy_json : Json PolicyEvent⦄
    ⦃cache_json : Json ChannelPolicy⦄ ⦃moderation_json : Json ModerationEvent⦄
    ⦃key_json : Json (List ChannelKey)⦄ ⦃values : Values⦄ ⦃mcp : McpJson values⦄ where
  abbrev pub write_response : JsonRpcResponse values → ServerState → ServerState
  write_response x s = record s { written = s.written ++ frame (mcp.response_to x) }

  -- A request without an id is a notification, and is not answered.
  abbrev pub answer_request : Setting → JsonRpcRequest values → ServerState → ServerState
  answer_request x q s = elim q.id [
    | none ↦ s
    | some id ↦
        let t = handle_request x q s.channels in
        write_response (response_of id t.0) (record s { channels = t.1 })
  ]

  -- One message of the input.
  unfoldable pub answer_message : Setting → Bytes → ServerState → ServerState
  answer_message x raw s = elim (mcp.request_from raw) [
    | none ↦ write_response (record { id = none; result = none; error = some parse_error }) s
    | some q ↦ answer_request x q s
  ]

  -- What follows on an attempt to read; `more` goes on with a message and what is left.
  abbrev pub after_read :
      (Bytes → Bytes → RunEnd × ServerState) → Read → ServerState → RunEnd × ServerState
  after_read more (err e, rest) s = (read_failed e, s)
  after_read more (ok none, rest) s = (input_ended, s)
  after_read more (ok (some raw), rest) s = more raw rest

  -- `settings` is what each message meets, counted from `i` on; the second number is fuel.
  unfoldable pub run_stdio : (ℕ → Setting) → ℕ → ℕ → Bytes → ServerState → RunEnd × ServerState
  run_stdio settings i zero input s = (ran_out, s)
  run_stdio settings i (suc n) input s =
      after_read (λ raw rest. run_stdio settings (suc i) n rest (answer_message (settings i) raw s))
        (read_mcp_message input) s
