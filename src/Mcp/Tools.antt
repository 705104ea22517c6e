-- ===== src/Mcp/Tools.antt =====
-- What the tools of the MCP server of src/mcp.rs show: `tail_channel` to a reader, the others nothing.
use embernet.Prelude.{
  Str, Bool, true, List, Option, none, some, str_eq, ◌≡◌, refl, sym, ap, ◌∙◌, subst,
}
use mathlib.Core.Option.{some-injective}
use embernet.Fallible.{
  Result, ok, ensure, true_of_ensure, ok-injective, invalid_channel_name, not_a_reader,
  unknown_channel,
}
use embernet.Fallible.Checks.{bind-eq_ok}
use embernet.Fallible.Actions.{proceed-eq_ok, step-eq_ok, proceed-either}
use embernet.Crates.{Crates, ToVec}
use embernet.Ciphers.{Ciphers}
use embernet.Redb.{Redb}
use embernet.Ndjson.{Json}
use embernet.Util.{valid_channel}
use embernet.Proto.{KeypairFile, Message, Envelope}
use embernet.Keyring.{ChannelKey}
use embernet.Policy.{ChannelPolicy, policy_allows_read, PolicyEvent, PolicyEventPayload}
use embernet.PolicyStore.{read_channel_policy, authorize_read}
use embernet.Moderation.{ModerationEvent, ModerationEventPayload}
use embernet.Discovery.{list_readable_channels}
use embernet.MessageLog.Messages.{append_message}
use embernet.Encryption.Signing.{sign_message_for_channel, read_channel_tail_decrypted}
use embernet.Proto.{new_text}
use embernet.Mcp.{
  on_channel, on_files, has_log, TailChannelArgs, PostMessageArgs, ToolResult, channel_list,
  channel_tail, posted, Node, ensure_channel_log_exists, Setting, list_channels_tool, tail_channel,
  post_message,
}

-- The channel whose messages a result shows.
abbrev pub tail_of : ToolResult → Option Str
tail_of (channel_list names) = none
tail_of (channel_tail name messages) = some name
tail_of (posted id name env) = none

module _ ⦃r : Redb⦄ ⦃k : Crates⦄ ⦃c : Ciphers⦄ ⦃v : ToVec Message⦄ ⦃p : ToVec PolicyEventPayload⦄
    ⦃m : ToVec ModerationEventPayload⦄ ⦃j : Json Envelope⦄ ⦃policy_json : Json PolicyEvent⦄
    ⦃cache_json : Json ChannelPolicy⦄ ⦃moderation_json : Json ModerationEvent⦄
    ⦃key_json : Json (List ChannelKey)⦄ (x : Setting) where
  -- The identity of the server may read the channel.
  pub record IsReader (chan : Str) (channels : Node) : Type 0 where
    pub identity : KeypairFile
    pub policy : ChannelPolicy
    pub own : x.identity_file ≡ ok identity
    pub in_force : read_channel_policy chan (channels chan).dir ≡ ok policy
    pub allowed : policy_allows_read policy identity.public_key ≡ true

  ensure_channel_log_exists-kept :
      (inside : Str → Bool) (chan : Str) (channels : Node)
      → (ensure_channel_log_exists inside chan channels).1 ≡ channels
  unfolding ensure_channel_log_exists
  ensure_channel_log_exists-kept inside chan channels =
      proceed-either (λ (y : Node). y ≡ channels) _
        (ensure (has_log (channels chan)) unknown_channel) channels (λ _ _. refl) λ _ _. refl

  pub tail_channel-IsReader :
      (args : TailChannelArgs) (channels done : Node) (result : ToolResult) (chan : Str)
      → tail_channel x args channels ≡ (ok result, done)
      → tail_of result ≡ some chan
      → IsReader chan channels
  unfolding tail_channel authorize_read
  tail_channel-IsReader args channels done result chan h shows =
      let (_, _, h₁) =
        proceed-eq_ok _ (ensure (valid_channel args.channel) invalid_channel_name) channels done
          result h in
      let (_, (y, there, h₂)) =
        step-eq_ok (ensure_channel_log_exists x.inside args.channel) _ channels done result h₁ in
      let same =
        sym (ensure_channel_log_exists-kept x.inside args.channel channels)
        ∙ ap (λ (q : Result (Unit {0}) × Node). q.1) there in
      let (identity, own, h₃) = proceed-eq_ok _ x.identity_file y done result h₂ in
      let (_, authorized, h₄) =
        proceed-eq_ok _ (authorize_read args.channel identity.public_key (y args.channel).dir) y
          done result h₃ in
      let (messages, (z, _, h₅)) =
        step-eq_ok (on_channel args.channel (read_channel_tail_decrypted args.channel args.limit)) _
          y done result h₄ in
      let made = ap (λ (q : Result ToolResult × Node). q.0) h₅ in
      let name : args.channel ≡ chan =
        some-injective args.channel chan
          (ap tail_of (ok-injective (channel_tail args.channel messages) result made) ∙ shows) in
      let (policy, in_force, allowed) =
        bind-eq_ok (read_channel_policy args.channel (y args.channel).dir) _ authorized in
      let found : IsReader args.channel y = record {
        identity = identity;
        policy = policy;
        own = own;
        in_force = in_force;
        allowed =
            true_of_ensure (policy_allows_read policy identity.public_key) not_a_reader allowed;
      } in
      subst (λ n. IsReader n channels) name (subst (IsReader args.channel) (sym same) found)

  pub list_channels_tool-hides :
      (channels done : Node) (result : ToolResult)
      → list_channels_tool x channels ≡ (ok result, done)
      → tail_of result ≡ none
  unfolding list_channels_tool
  list_channels_tool-hides channels done result h =
      let (identity, _, h₁) = proceed-eq_ok _ x.identity_file channels done result h in
      let (names, _, h₂) =
        proceed-eq_ok _
          (list_readable_channels (λ name. (channels name).dir) x.root (some identity.public_key))
          channels done result h₁ in
      sym (
        ap tail_of (
          ok-injective (channel_list names) result (ap (λ (q : Result ToolResult × Node). q.0) h₂)))

  pub post_message-hides :
      (args : PostMessageArgs) (channels done : Node) (result : ToolResult)
      → post_message x args channels ≡ (ok result, done)
      → tail_of result ≡ none
  unfolding post_message
  post_message-hides args channels done result h =
      let (_, _, h₁) =
        proceed-eq_ok _ (ensure (valid_channel args.channel) invalid_channel_name) channels done
          result h in
      let (_, (y, _, h₂)) =
        step-eq_ok (ensure_channel_log_exists x.inside args.channel) _ channels done result h₁ in
      let (identity, _, h₃) = proceed-eq_ok _ x.identity_file y done result h₂ in
      let message = new_text x.now args.title args.tags args.content args.refs in
      let (env, (z, _, h₄)) =
        step-eq_ok
          (on_channel args.channel
            (on_files (sign_message_for_channel args.channel identity x.raw x.nonce message)))
          _ y done result h₃ in
      let (id, (w, _, h₅)) =
        step-eq_ok (on_channel args.channel (append_message args.channel env)) _ z done result h₄ in
      sym (
        ap tail_of (
          ok-injective (posted id args.channel env) result
            (ap (λ (q : Result ToolResult × Node). q.0) h₅)))
