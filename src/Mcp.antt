-- ===== src/Mcp.antt =====
-- The requests of the MCP server in src/mcp.rs. The state is the node's channels. A JSON value is one
-- of `serde_json`, a parameter, and so is whether a path lies inside the data directory once links are
-- followed; the random bytes and the time of a post are arguments.
pub mod Framing
pub mod Server
pub mod Tools
pub mod Readers
use embernet.Prelude.{
  ℕ, Bytes, Str, Bool, true, false, codes, List, [], ◌∷◌, ◌-◌, ◌^◌, Option, none, some, ◌==◌,
  str_eq, if◌then◌else◌,
}
use embernet.Fallible.{
  Result, Error, ok, err, ensure, Action, reads, lift, pure, invalid_channel_name, unknown_channel,
  outside_datadir, unknown_tool,
}
use embernet.Fallible.Actions.{◌>>=◌, ◌>>◌}
use embernet.Crates.{Crates, ToVec}
use embernet.Ciphers.{Ciphers}
use embernet.Redb.{Redb}
use embernet.Ndjson.{Json}
use embernet.Util.{valid_channel}
use embernet.Proto.{KeypairFile, Message, Envelope, new_text}
use embernet.Channel.{ChannelDir}
use embernet.Keyring.{ChannelKey}
use embernet.Policy.{ChannelPolicy, PolicyEvent, PolicyEventPayload}
use embernet.PolicyStore.{authorize_read}
use embernet.Moderation.{ModerationEvent, ModerationEventPayload}
use embernet.MessageLog.Messages.{IndexedDir, append_message}
use embernet.Encryption.Signing.{sign_message_for_channel, read_channel_tail_decrypted}
use embernet.Discovery.{Entries, list_readable_channels}

pub record TailChannelArgs : Type 0 where
  pub channel : Str
  pub limit : ℕ

pub record PostMessageArgs : Type 0 where
  pub channel : Str
  pub title : Option Str
  pub content : Str
  pub tags : List Str
  pub refs : List Str

-- What the program uses of `serde_json::Value`.
pub record Values : Type 1 where
  pub Value : Type 0
  pub get : Str → Value → Option Value
  pub as_str : Value → Option Str
  pub empty_object : Value
  pub tail_args : Value → Option TailChannelArgs
  pub post_args : Value → Option PostMessageArgs

pub record JsonRpcRequest (j : Values) : Type 0 where
  pub jsonrpc : Option Str
  pub id : Option j.Value
  pub method : Str
  pub params : j.Value

-- What a tool gives.
pub data ToolResult : Type 0 where
  channel_list : List Str → ToolResult
  channel_tail : Str → List Envelope → ToolResult
  posted : Str → Str → Envelope → ToolResult

pub data McpResult : Type 0 where
  initialized pong tool_list : McpResult
  tool_result : ToolResult → McpResult

-- The kinds of error, and the cause of one of a tool.
pub data JsonRpcError : Type 0 where
  parse_error invalid_request method_not_found invalid_params : JsonRpcError
  tool_error : Error → JsonRpcError

-- The codes as 64-bit patterns of an `i64`.
abbrev pub code_of : JsonRpcError → ℕ
code_of parse_error = 2 ^ 64 - 32700
code_of invalid_request = 2 ^ 64 - 32600
code_of method_not_found = 2 ^ 64 - 32601
code_of invalid_params = 2 ^ 64 - 32602
code_of (tool_error e) = 2 ^ 64 - 32000

pub data Handled : Type 0 where
  failed : JsonRpcError → Handled
  handled : McpResult → Handled

-- `map_err(tool_error)`.
abbrev pub outcome_of : Result ToolResult → Handled
outcome_of (ok result) = handled (tool_result result)
outcome_of (err e) = failed (tool_error e)

abbrev pub version_or_default : Option Str → Str
version_or_default none = codes "2.0"
version_or_default (some version) = version

module _ ⦃values : Values⦄ where
  abbrev pub arguments_of : values.Value → values.Value
  arguments_of params = elim (values.get (codes "arguments") params) [
    | none ↦ values.empty_object
    | some arguments ↦ arguments
  ]

  abbrev pub name_of : values.Value → Option Str
  name_of params = elim (values.get (codes "name") params) [
    | none ↦ none
    | some name ↦ values.as_str name
  ]

module _ ⦃r : Redb⦄ where
  abbrev pub Node : Type 0
  Node = Str → IndexedDir

  -- An operation on one channel of the node.
  abbrev pub on_channel : {A : Type 0} → Str → Action IndexedDir A → Action Node A
  on_channel name act channels =
      let t = act (channels name) in (t.0, λ other. if name == other then t.1 else channels other)

  abbrev pub on_files : {A : Type 0} → Action ChannelDir A → Action IndexedDir A
  on_files act d = let t = act d.dir in (t.0, record d { dir = t.1 })

  abbrev pub has_log : IndexedDir → Bool
  has_log d = elim d.dir.log [ none ↦ false | some bytes ↦ true ]

  unfoldable pub ensure_channel_log_exists : (Str → Bool) → Str → Action Node (Unit {0})
  ensure_channel_log_exists inside name = do
    reads (λ channels. ensure (has_log (channels name)) unknown_channel)
    lift (ensure (inside name) outside_datadir)

-- What a run of the server meets: `load_identity`, the directory that `list_channels` goes through,
-- the paths that lie inside, and what a post draws.
pub record Setting : Type 0 where
  pub identity_file : Result KeypairFile
  pub root : Option Entries
  pub inside : Str → Bool
  pub raw : Bytes
  pub nonce : Bytes
  pub now : ℕ

module _ ⦃r : Redb⦄ ⦃k : Crates⦄ ⦃c : Ciphers⦄ ⦃v : ToVec Message⦄ ⦃p : ToVec PolicyEventPayload⦄
    ⦃m : ToVec ModerationEventPayload⦄ ⦃j : Json Envelope⦄ ⦃policy_json : Json PolicyEvent⦄
    ⦃cache_json : Json ChannelPolicy⦄ ⦃moderation_json : Json ModerationEvent⦄
    ⦃key_json : Json (List ChannelKey)⦄ (x : Setting) where
  unfoldable pub list_channels_tool : Action Node ToolResult
  list_channels_tool = do
    identity ← lift x.identity_file
    names ← reads (λ channels.
        list_readable_channels (λ name. (channels name).dir) x.root (some identity.public_key))
    pure (channel_list names)

  unfoldable pub tail_channel : TailChannelArgs → Action Node ToolResult
  tail_channel args = do
    lift (ensure (valid_channel args.channel) invalid_channel_name)
    ensure_channel_log_exists x.inside args.channel
    identity ← lift x.identity_file
    reads (λ channels. authorize_read args.channel identity.public_key (channels args.channel).dir)
    messages ← on_channel args.channel (read_channel_tail_decrypted args.channel args.limit)
    pure (channel_tail args.channel messages)

  unfoldable pub post_message : PostMessageArgs → Action Node ToolResult
  post_message args = do
    lift (ensure (valid_channel args.channel) invalid_channel_name)
    ensure_channel_log_exists x.inside args.channel
    identity ← lift x.identity_file
    let message = new_text x.now args.title args.tags args.content args.refs
    env ←
        on_channel args.channel
          (on_files (sign_message_for_channel args.channel identity x.raw x.nonce message))
    id ← on_channel args.channel (append_message args.channel env)
    pure (posted id args.channel env)

  -- A tool on arguments that have been read.
  abbrev pub with_args :
      {A : Type 0} → Option A → (A → Action Node ToolResult) → Node → Handled × Node
  with_args none tool channels = (failed invalid_params, channels)
  with_args (some args) tool channels = let t = tool args channels in (outcome_of t.0, t.1)

  module _ ⦃values : Values⦄ where
    unfoldable pub run_tool : Str → values.Value → Node → Handled × Node
    run_tool name arguments channels =
        if name == codes "list_channels"
        then with_args (some tt) (λ _. list_channels_tool) channels
        else if name == codes "tail_channel"
        then with_args (values.tail_args arguments) tail_channel channels
        else if name == codes "post_message"
        then with_args (values.post_args arguments) post_message channels
        else (failed (tool_error unknown_tool), channels)

    abbrev pub call_named : Option Str → values.Value → Node → Handled × Node
    call_named none arguments channels = (failed invalid_params, channels)
    call_named (some name) arguments channels = run_tool name arguments channels

    unfoldable pub handle_tool_call : values.Value → Node → Handled × Node
    handle_tool_call params channels = call_named (name_of params) (arguments_of params) channels

    unfoldable pub handle_request : JsonRpcRequest values → Node → Handled × Node
    handle_request q channels =
        if version_or_default q.jsonrpc == codes "2.0"
        then (if q.method == codes "initialize"
            then (handled initialized, channels)
            else if q.method == codes "ping"
            then (handled pong, channels)
            else if q.method == codes "tools/list"
            then (handled tool_list, channels)
            else if q.method == codes "tools/call"
            then handle_tool_call q.params channels
            else (failed method_not_found, channels))
        else (failed invalid_request, channels)
