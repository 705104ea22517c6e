-- ===== src/Mcp/Readers.antt =====
-- To whom the MCP server of src/mcp.rs shows the messages of a channel.
use embernet.Prelude.{
  Str, codes, List, Option, Option-cases, none, some, ◌==◌, str_eq, ◌≡◌, refl, sym, ap, ◌∙◌,
  Bool-cases, inl, inr,
}
use embernet.Fallible.{Result, ok, err}
use embernet.Crates.{Crates, ToVec}
use embernet.Ciphers.{Ciphers}
use embernet.Redb.{Redb}
use embernet.Ndjson.{Json}
use embernet.Proto.{Message, Envelope}
use embernet.Keyring.{ChannelKey}
use embernet.Policy.{ChannelPolicy, PolicyEvent, PolicyEventPayload}
use embernet.Moderation.{ModerationEvent, ModerationEventPayload}
use embernet.Mcp.{
  Values, JsonRpcRequest, ToolResult, channel_tail, tool_result, initialized, pong, tool_list,
  Handled, failed, handled, outcome_of, Node, Setting, list_channels_tool, tail_channel,
  post_message, run_tool, handle_tool_call, call_named, name_of, arguments_of, handle_request,
  version_or_default,
}
use embernet.Mcp.Tools.{
  tail_of, IsReader, tail_channel-IsReader, list_channels_tool-hides, post_message-hides,
}

abbrev shown : Handled → Option Str
shown (failed e) = none
shown (handled initialized) = none
shown (handled pong) = none
shown (handled tool_list) = none
shown (handled (tool_result result)) = tail_of result

module _ ⦃r : Redb⦄ ⦃k : Crates⦄ ⦃c : Ciphers⦄ ⦃v : ToVec Message⦄ ⦃p : ToVec PolicyEventPayload⦄
    ⦃m : ToVec ModerationEventPayload⦄ ⦃j : Json Envelope⦄ ⦃policy_json : Json PolicyEvent⦄
    ⦃cache_json : Json ChannelPolicy⦄ ⦃moderation_json : Json ModerationEvent⦄
    ⦃key_json : Json (List ChannelKey)⦄ (x : Setting) where
  -- What a tool shows, by what it gives when it succeeds.
  outcome_shows :
      (t : Result ToolResult) (chan : Str) (P : Type 0)
      → ((result : ToolResult) → t ≡ ok result → tail_of result ≡ some chan → P)
      → shown (outcome_of t) ≡ some chan
      → P
  outcome_shows (ok result) chan P f h = f result refl h
  outcome_shows (err e) chan P f h = absurd (cc h)

  module _ ⦃values : Values⦄ where
    run_tool-IsReader :
        (name chan : Str) (arguments : values.Value) (channels : Node)
        → shown (run_tool x name arguments channels).0 ≡ some chan
        → IsReader x chan channels
    unfolding run_tool
    run_tool-IsReader name chan arguments channels h =
        let P = IsReader x chan channels in
        elim (Bool-cases (name == codes "list_channels")) [
          | inl b ↦
              let t = list_channels_tool x channels in
              outcome_shows t.0 chan P
                (λ result e shows.
                  let hides =
                    list_channels_tool-hides x channels t.1 result
                      (ap (λ (q : Result ToolResult). (q, t.1)) e) in
                  absurd (cc (sym hides ∙ shows)))
                (rw b at h)
          | inr b ↦ elim (Bool-cases (name == codes "tail_channel")) [
            | inl c ↦ elim (Option-cases (values.tail_args arguments)) [
              | inl e ↦ absurd (cc (rw (b, c, e) at h))
              | inr (args, e) ↦
                  let t = tail_channel x args channels in
                  outcome_shows t.0 chan P
                    (λ result f shows.
                      tail_channel-IsReader x args channels t.1 result chan
                        (ap (λ (q : Result ToolResult). (q, t.1)) f) shows)
                    (rw (b, c, e) at h)
            ]
            | inr c ↦ elim (Bool-cases (name == codes "post_message")) [
              | inl d ↦ elim (Option-cases (values.post_args arguments)) [
                | inl e ↦ absurd (cc (rw (b, c, d, e) at h))
                | inr (args, e) ↦
                    let t = post_message x args channels in
                    outcome_shows t.0 chan P
                      (λ result f shows.
                        let hides =
                          post_message-hides x args channels t.1 result
                            (ap (λ (q : Result ToolResult). (q, t.1)) f) in
                        absurd (cc (sym hides ∙ shows)))
                      (rw (b, c, d, e) at h)
              ]
              | inr d ↦ absurd (cc (rw (b, c, d) at h))
            ]
          ]
        ]

    call_named-IsReader :
        (name : Option Str) (arguments : values.Value) (chan : Str) (channels : Node)
        → shown (call_named x name arguments channels).0 ≡ some chan
        → IsReader x chan channels
    call_named-IsReader none arguments chan channels h = absurd (cc h)
    call_named-IsReader (some name) arguments chan channels h =
        run_tool-IsReader name chan arguments channels h

    handle_tool_call-IsReader :
        (params : values.Value) (chan : Str) (channels : Node)
        → shown (handle_tool_call x params channels).0 ≡ some chan
        → IsReader x chan channels
    unfolding handle_tool_call
    handle_tool_call-IsReader params chan channels h =
        call_named-IsReader (name_of params) (arguments_of params) chan channels h

    shown_request-IsReader :
        (q : JsonRpcRequest values) (chan : Str) (channels : Node)
        → shown (handle_request x q channels).0 ≡ some chan
        → IsReader x chan channels
    unfolding handle_request
    shown_request-IsReader q chan channels h =
        elim (Bool-cases (version_or_default q.jsonrpc == codes "2.0")) [
          | inr a ↦ absurd (cc (rw a at h))
          | inl a ↦ elim (Bool-cases (q.method == codes "initialize")) [
            | inl b ↦ absurd (cc (rw (a, b) at h))
            | inr b ↦ elim (Bool-cases (q.method == codes "ping")) [
              | inl d ↦ absurd (cc (rw (a, b, d) at h))
              | inr d ↦ elim (Bool-cases (q.method == codes "tools/list")) [
                | inl e ↦ absurd (cc (rw (a, b, d, e) at h))
                | inr e ↦ elim (Bool-cases (q.method == codes "tools/call")) [
                  | inl f ↦
                      handle_tool_call-IsReader q.params chan channels (rw (a, b, d, e, f) at h)
                  | inr f ↦ absurd (cc (rw (a, b, d, e, f) at h))
                ]
              ]
            ]
          ]
        ]

    -- If the answer to any request shows messages of a channel, then the identity of the server is one
    -- that the channel's policy in force lets read.
    pub handle_request-IsReader :
        (q : JsonRpcRequest values) (chan : Str) (messages : List Envelope) (channels done : Node)
        → handle_request x q channels ≡ (handled (tool_result (channel_tail chan messages)), done)
        → IsReader x chan channels
    handle_request-IsReader q chan messages channels done h =
        shown_request-IsReader q chan channels (ap (λ (t : Handled × Node). shown t.0) h)
