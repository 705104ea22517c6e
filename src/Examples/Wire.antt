-- ===== src/Examples/Wire.antt =====
-- The toy serialiser at the program's structures.
use embernet.Prelude.{ℕ, zero, suc, Str, List, ◌≡◌, refl, ◌⊎◌, inl, inr}
use embernet.Crates.{ToVec}
use embernet.Ndjson.{Json}
use embernet.Proto.{MsgType, post, reply, vote, moderate, Body, text, encrypted, Message}
use embernet.Keyring.{ChannelKey}
use embernet.Policy.{
  PolicyMode, open_mode, restricted, ChannelVisibility, public_visible, private_only, PolicyRole,
  moderator, writer, reader, ChannelPolicy, PolicyAction, restrict, adopt, grant, revoke,
  transfer_owner, set_visibility, PolicyEvent, PolicyEventPayload,
}
use embernet.Examples.Codes.{
  Code, nat_code, pair_code, sum_code, via_code, list_code, option_code, str_code, code_vec,
  code_json,
}

-- Enumerations as numbers.
abbrev pub type_from : MsgType → ℕ
type_from post = 0
type_from reply = 1
type_from vote = 2
type_from moderate = 3

abbrev pub type_to : ℕ → MsgType
type_to zero = post
type_to (suc zero) = reply
type_to (suc (suc zero)) = vote
type_to (suc (suc (suc n))) = moderate

pub type_back : (y : MsgType) → type_to (type_from y) ≡ y
type_back post = refl
type_back reply = refl
type_back vote = refl
type_back moderate = refl

abbrev pub mode_from : PolicyMode → ℕ
mode_from open_mode = 0
mode_from restricted = 1

abbrev pub mode_to : ℕ → PolicyMode
mode_to zero = open_mode
mode_to (suc n) = restricted

pub mode_back : (y : PolicyMode) → mode_to (mode_from y) ≡ y
mode_back open_mode = refl
mode_back restricted = refl

abbrev pub visibility_from : ChannelVisibility → ℕ
visibility_from public_visible = 0
visibility_from private_only = 1

abbrev pub visibility_to : ℕ → ChannelVisibility
visibility_to zero = public_visible
visibility_to (suc n) = private_only

pub visibility_back : (y : ChannelVisibility) → visibility_to (visibility_from y) ≡ y
visibility_back public_visible = refl
visibility_back private_only = refl

abbrev pub role_from : PolicyRole → ℕ
role_from moderator = 0
role_from writer = 1
role_from reader = 2

abbrev pub role_to : ℕ → PolicyRole
role_to zero = moderator
role_to (suc zero) = writer
role_to (suc (suc n)) = reader

pub role_back : (y : PolicyRole) → role_to (role_from y) ≡ y
role_back moderator = refl
role_back writer = refl
role_back reader = refl

abbrev pub visibility_code : Code ChannelVisibility
visibility_code = via_code nat_code visibility_from visibility_to visibility_back

abbrev pub BodyParts : Type 0
BodyParts = Str ⊎ (Str × (Str × Str))

abbrev pub body_from : Body → BodyParts
body_from (text t) = inl t
body_from (encrypted i n c) = inr (i, (n, c))

abbrev pub body_to : BodyParts → Body
body_to (inl t) = text t
body_to (inr (i, (n, c))) = encrypted i n c

pub body_back : (y : Body) → body_to (body_from y) ≡ y
body_back (text t) = refl
body_back (encrypted i n c) = refl

abbrev pub body_code : Code Body
body_code =
    via_code (sum_code str_code (pair_code str_code (pair_code str_code str_code))) body_from
      body_to body_back

abbrev pub message_code : Code Message
message_code =
    via_code
      (pair_code nat_code (
        pair_code (via_code nat_code type_from type_to type_back) (
          pair_code (option_code str_code)
            (pair_code (list_code str_code) (pair_code (list_code str_code) body_code)))))
      (λ m. (m.ts, (m.msg_type, (m.title, (m.tags, (m.refs, m.body))))))
      (λ p. record {
        ts = p.0;
        msg_type = p.1.0;
        title = p.1.1.0;
        tags = p.1.1.1.0;
        refs = p.1.1.1.1.0;
        body = p.1.1.1.1.1;
      })
      (λ y. refl)

abbrev pub policy_code : Code ChannelPolicy
policy_code =
    via_code
      (pair_code nat_code (
        pair_code (via_code nat_code mode_from mode_to mode_back) (
          pair_code visibility_code (
            pair_code (option_code str_code) (
              pair_code (list_code str_code)
                (pair_code (list_code str_code) (list_code str_code)))))))
      (λ p.
        (p.version, (p.mode, (p.visibility, (p.owner, (p.moderators, (p.writers, p.readers)))))))
      (λ q. record {
        version = q.0;
        mode = q.1.0;
        visibility = q.1.1.0;
        owner = q.1.1.1.0;
        moderators = q.1.1.1.1.0;
        writers = q.1.1.1.1.1.0;
        readers = q.1.1.1.1.1.1;
      })
      (λ y. refl)

abbrev pub RoleKey : Type 0
RoleKey = PolicyRole × Str

abbrev pub ActionParts : Type 0
ActionParts = (Str ⊎ ChannelPolicy) ⊎ ((RoleKey ⊎ RoleKey) ⊎ (Str ⊎ ChannelVisibility))

abbrev pub action_from : PolicyAction → ActionParts
action_from (restrict o) = inl (inl o)
action_from (adopt p) = inl (inr p)
action_from (grant r k) = inr (inl (inl (r, k)))
action_from (revoke r k) = inr (inl (inr (r, k)))
action_from (transfer_owner o) = inr (inr (inl o))
action_from (set_visibility v) = inr (inr (inr v))

abbrev pub action_to : ActionParts → PolicyAction
action_to (inl (inl o)) = restrict o
action_to (inl (inr p)) = adopt p
action_to (inr (inl (inl (r, k)))) = grant r k
action_to (inr (inl (inr (r, k)))) = revoke r k
action_to (inr (inr (inl o))) = transfer_owner o
action_to (inr (inr (inr v))) = set_visibility v

pub action_back : (y : PolicyAction) → action_to (action_from y) ≡ y
action_back (restrict o) = refl
action_back (adopt p) = refl
action_back (grant r k) = refl
action_back (revoke r k) = refl
action_back (transfer_owner o) = refl
action_back (set_visibility v) = refl

abbrev pub role_key_code : Code RoleKey
role_key_code = pair_code (via_code nat_code role_from role_to role_back) str_code

abbrev pub action_code : Code PolicyAction
action_code =
    via_code
      (sum_code (sum_code str_code policy_code)
        (sum_code (sum_code role_key_code role_key_code) (sum_code str_code visibility_code)))
      action_from action_to action_back

abbrev pub policy_payload_code : Code PolicyEventPayload
policy_payload_code =
    via_code
      (pair_code str_code
        (pair_code str_code (pair_code nat_code (pair_code (option_code str_code) action_code))))
      (λ e. (e.channel, (e.actor, (e.ts, (e.previous, e.action)))))
      (λ p. record {
        channel = p.0;
        actor = p.1.0;
        ts = p.1.1.0;
        previous = p.1.1.1.0;
        action = p.1.1.1.1;
      })
      (λ y. refl)

abbrev pub policy_event_code : Code PolicyEvent
policy_event_code =
    via_code
      (pair_code str_code (
        pair_code str_code (
          pair_code str_code (
            pair_code nat_code
              (pair_code (option_code str_code) (pair_code action_code str_code))))))
      (λ e. (e.id, (e.channel, (e.actor, (e.ts, (e.previous, (e.action, e.sig)))))))
      (λ p. record {
        id = p.0;
        channel = p.1.0;
        actor = p.1.1.0;
        ts = p.1.1.1.0;
        previous = p.1.1.1.1.0;
        action = p.1.1.1.1.1.0;
        sig = p.1.1.1.1.1.1;
      })
      (λ y. refl)

abbrev pub channel_key_code : Code ChannelKey
channel_key_code =
    via_code (pair_code str_code str_code) (λ x. (x.id, x.key))
      (λ p. record { id = p.0; key = p.1 }) (λ y. refl)

instance abbrev pub message_vec : ToVec Message
message_vec = code_vec message_code

instance abbrev pub policy_payload_vec : ToVec PolicyEventPayload
policy_payload_vec = code_vec policy_payload_code

instance abbrev pub policy_event_json : Json PolicyEvent
policy_event_json = code_json policy_event_code

instance abbrev pub policy_cache_json : Json ChannelPolicy
policy_cache_json = code_json policy_code

instance abbrev pub keyring_json : Json (List ChannelKey)
keyring_json = code_json (list_code channel_key_code)
