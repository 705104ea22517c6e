-- ===== src/Examples/McpCases.antt =====
-- Alice's MCP server reads a framed message, and shows the tail of an empty channel.
use embernet.Prelude.{
  Bytes, Str, str_beq, codes, true, [], ◌∷◌, ◌++◌, Option, none, some, ◌==◌, str_eq, ◌≡◌, refl,
  if◌then◌else◌, arith,
}
use embernet.Fallible.{ok}
use embernet.Util.{
  valid_channel, push_byte, all_allowed, allowed, starts_with_slash, ends_with_slash,
  has_double_slash,
}
use embernet.PolicyStore.{read_history}
use embernet.Moderation.{derive_moderation, replay_moderation}
use embernet.ModerationStore.{
  moderation_state, read_moderation_history, read_moderation, validate_moderation_history,
}
use embernet.MessageLog.Reading.{reverse_onto}
use embernet.Channel.{create_channel}
use embernet.Policy.{policy_allows_read}
use embernet.PolicyStore.{read_policy_cache, read_channel_policy, authorize_read}
use embernet.MessageLog.{raw_lines, scan_lines, scan_verified_file}
use embernet.MessageLog.Index.{
  concat, chunks_of_32, decode_ids, bucket, write_metadata, index_locations, fill_buckets,
  rebuild_index, is_current,
}
use embernet.MessageLog.Messages.{ensure_index}
use embernet.MessageLog.Reading.{locate, latest_first, read_visible, read_channel_tail_with_options}
use embernet.Encryption.Signing.{
  decrypt_all, read_channel_tail_decrypted, read_channel_tail_decrypted_with_options,
}
use embernet.Mcp.Framing.{read_mcp_message, frame}
use embernet.Mcp.Framing.RoundTrip.{frame-read_mcp_message}
use embernet.Mcp.{
  TailChannelArgs, Values, JsonRpcRequest, channel_tail, tool_result, handled, Node,
  ensure_channel_log_exists, Setting, tail_channel, run_tool, handle_tool_call, handle_request,
}
use embernet.Mcp.Tools.{IsReader}
use embernet.Mcp.Readers.{handle_request-IsReader}
use embernet.Mcp.Server.{McpJson, RunEnd, ServerState, run_stdio}
use embernet.Mcp.Server.Ending.{Serves, run_stdio-ends}
use embernet.Examples.Toy.{toy, repeat}
use embernet.Examples.ToyCiphers.{toy_ciphers}
use embernet.Examples.Tables.{toy_redb, envelope_json}
use embernet.Examples.Wire.{
  message_vec, policy_payload_vec, policy_event_json, policy_cache_json, keyring_json,
}
use embernet.Examples.ModerationWire.{moderation_payload_vec, moderation_event_json}
use embernet.Examples.People.{alice}
use embernet.Examples.LogCases.{padded}
use embernet.Examples.TransferCases.{indexed}

frame-read_mcp_message_example :
    read_mcp_message (frame (codes "{}") ++ codes "more") ≡ (ok (some (codes "{}")), codes "more")
frame-read_mcp_message_example = frame-read_mcp_message (codes "{}") (codes "more") (omega arith)

-- The few values that the requests below are made of.
data ToyValue : Type 0 where
  word : Str → ToyValue
  tail_call : TailChannelArgs → ToyValue
  tail_arguments : TailChannelArgs → ToyValue
  nothing : ToyValue

abbrev get_part : Str → ToyValue → Option ToyValue
get_part key (tail_call args) =
    if key == codes "name" then some (word (codes "tail_channel")) else some (tail_arguments args)
get_part key (word s) = none
get_part key (tail_arguments args) = none
get_part key nothing = none

abbrev word_of : ToyValue → Option Str
word_of (word s) = some s
word_of (tail_call args) = none
word_of (tail_arguments args) = none
word_of nothing = none

abbrev read_tail_args : ToyValue → Option TailChannelArgs
read_tail_args (tail_arguments args) = some args
read_tail_args (word s) = none
read_tail_args (tail_call args) = none
read_tail_args nothing = none

instance abbrev toy_values : Values
toy_values = record {
  Value = ToyValue;
  get = get_part;
  as_str = word_of;
  empty_object = nothing;
  tail_args = read_tail_args;
  post_args = λ v. none;
}

abbrev setting : Setting
setting = record {
  identity_file = ok alice;
  root = none;
  inside = λ name. true;
  raw = repeat 32 1;
  nonce = repeat 24 1;
  now = 5;
}

abbrev one_channel : Node
one_channel name = indexed

abbrev tail_request : JsonRpcRequest toy_values
tail_request = record {
  jsonrpc = some (codes "2.0");
  id = some (word (codes "1"));
  method = codes "tools/call";
  params = tail_call (record { channel = codes "a"; limit = 1 });
}

abbrev after_tail : Node
after_tail = (handle_request ⦃k = padded⦄ setting tail_request one_channel).1

tail_shown :
    handle_request ⦃k = padded⦄ setting tail_request one_channel
    ≡ (handled (tool_result (channel_tail (codes "a") [])), after_tail)
unfolding handle_request handle_tool_call run_tool tail_channel ensure_channel_log_exists
    valid_channel authorize_read read_channel_policy read_policy_cache policy_allows_read
    create_channel ensure_index rebuild_index scan_verified_file scan_lines raw_lines decode_ids
    index_locations fill_buckets bucket is_current chunks_of_32 concat write_metadata
    read_channel_tail_decrypted read_channel_tail_decrypted_with_options
    read_channel_tail_with_options decrypt_all locate latest_first read_visible push_byte str_beq
    all_allowed allowed starts_with_slash ends_with_slash has_double_slash moderation_state
    read_moderation_history read_moderation validate_moderation_history read_history
    derive_moderation replay_moderation reverse_onto
tail_shown = refl

handle_request-IsReader_example : IsReader ⦃k = padded⦄ setting (codes "a") one_channel
handle_request-IsReader_example =
    handle_request-IsReader ⦃k = padded⦄ setting tail_request (codes "a") [] one_channel after_tail
      tail_shown

instance abbrev toy_mcp : McpJson toy_values
toy_mcp = record {
  request_from = λ raw. if raw == codes "{}" then some tail_request else none;
  response_to = λ response. codes "{}";
}

abbrev start : ServerState
start = record { channels = one_channel; written = [] }

abbrev input : Bytes
input = codes "{}" ++ b'\n' ∷ codes "{"

abbrev run_end : RunEnd
run_end = (run_stdio ⦃k = padded⦄ (λ i. setting) 0 5 input start).0

abbrev run_state : ServerState
run_state = (run_stdio ⦃k = padded⦄ (λ i. setting) 0 5 input start).1

run_stdio-ends_example : Serves ⦃k = padded⦄ (λ i. setting) 0 input start run_end run_state
run_stdio-ends_example = run_stdio-ends ⦃k = padded⦄ (λ i. setting) 0 5 input start (omega arith)
