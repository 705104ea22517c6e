-- ===== src/Moderation.antt =====
-- The moderation events of src/store.rs: `sign_moderation_event` and `derive_moderation`, on a
-- policy history that has been read.
pub mod Tombstones
pub mod Replay
pub mod Verdict
pub mod Extension
pub mod Prefix
use embernet.Prelude.{
  ℕ, zero, suc, Bytes, Str, Bool, codes, ◌&&◌, ◌||◌, List, [], ◌∷◌, ◌++◌, Option, none, some, take,
  ◌==◌, str_eq, option_eq, contains, last, if◌then◌else◌,
}
use embernet.Fallible.{
  Result, ok, err, ensure, context, broken_moderation_chain, unknown_policy_head, not_a_moderator,
  bad_moderation_id,
}
use embernet.Fallible.Checks.{◌>>=◌, ◌>>◌}
use embernet.Crates.{Crates, ToVec}
use embernet.Proto.{KeypairFile, sign_bytes, verify_bytes}
use embernet.Policy.{ChannelPolicy, is_owner, PolicyEvent, PolicyEventPayload}
use embernet.Policy.Actions.{validate_public_key}
use embernet.Policy.History.{derive_policy}
use embernet.Moderation.Tombstones.{ModerationState, no_tombstones, insert, remove}

pub data ModerationAction : Type 0 where
  tombstone : Str → Option Str → ModerationAction
  restore : Str → ModerationAction

pub record ModerationEvent : Type 0 where
  pub id : Str
  pub channel : Str
  pub actor : Str
  pub ts : ℕ
  pub previous : Option Str
  pub policy_head : Str
  pub action : ModerationAction
  pub sig : Str

pub record ModerationEventPayload : Type 0 where
  pub channel : Str
  pub actor : Str
  pub ts : ℕ
  pub previous : Option Str
  pub policy_head : Str
  pub action : ModerationAction

abbrev pub moderation_payload : ModerationEvent → ModerationEventPayload
moderation_payload e = record {
  channel = e.channel;
  actor = e.actor;
  ts = e.ts;
  previous = e.previous;
  policy_head = e.policy_head;
  action = e.action;
}

abbrev pub signed_moderation : Bytes → Bytes
signed_moderation payload = codes "embernet-moderation-v1" ++ b'\n' ∷ payload

-- `iter().position(|policy_event| policy_event.id == head)`.
unfoldable pub position : Str → List PolicyEvent → Option ℕ
position head [] = none
position head (e ∷ events) =
    let rest = position head events in
    if e.id == head then some 0 else (elim rest [ none ↦ none | some n ↦ some (suc n) ])

-- Who may moderate under a policy.
unfoldable pub may_moderate : ChannelPolicy → Str → Bool
may_moderate p actor = is_owner p actor || contains actor p.moderators

module _ ⦃k : Crates⦄ ⦃j : ToVec PolicyEventPayload⦄ where
  -- The policy in force when the event of this id had been signed.
  unfoldable pub policy_at : Str → List PolicyEvent → Str → Result ChannelPolicy
  policy_at chan policies head = do
    n ← context (position head policies) unknown_policy_head
    derive_policy chan (take (suc n) policies)

module _ ⦃k : Crates⦄ ⦃m : ToVec ModerationEventPayload⦄ where
  abbrev pub moderation_id : ModerationEvent → Str
  moderation_id e = k.hex_encode (k.blake3 (m.to_vec (moderation_payload e)))

  unfoldable pub sign_moderation_event :
      Str → KeypairFile → ℕ → Option Str → Str → ModerationAction → Result ModerationEvent
  sign_moderation_event chan signer now previous policy_head action = do
    let payload = m.to_vec (record {
      channel = chan;
      actor = signer.public_key;
      ts = now;
      previous = previous;
      policy_head = policy_head;
      action = action;
    })
    sig ← sign_bytes signer (signed_moderation payload)
    ok (record {
      id = k.hex_encode (k.blake3 payload);
      channel = chan;
      actor = signer.public_key;
      ts = now;
      previous = previous;
      policy_head = policy_head;
      action = action;
      sig = sig;
    })

  -- The `match` on the action of an event.
  unfoldable pub apply_moderation : ModerationState → ModerationAction → Result ModerationState
  apply_moderation s (tombstone target reason) = do
    validate_public_key target
    ok (record { tombstoned = insert target reason s.tombstoned })
  apply_moderation s (restore target) = do
    validate_public_key target
    ok (record { tombstoned = remove target s.tombstoned })

  module _ ⦃j : ToVec PolicyEventPayload⦄ where
    -- The tests of one round of `derive_moderation`.
    unfoldable pub check_moderation_event :
        Str → List PolicyEvent → Option Str → ModerationEvent → Result (Unit {0})
    check_moderation_event chan policies previous e = do
      ensure ((e.channel == chan) && (e.previous == previous)) broken_moderation_chain
      policy ← policy_at chan policies e.policy_head
      ensure (may_moderate policy e.actor) not_a_moderator
      ensure (e.id == moderation_id e) bad_moderation_id
      verify_bytes e.actor e.sig (signed_moderation (m.to_vec (moderation_payload e)))

    -- The loop of `derive_moderation`.
    unfoldable pub replay_moderation :
        Str
        → List PolicyEvent
        → ModerationState
        → Option Str
        → List ModerationEvent
        → Result ModerationState
    replay_moderation chan policies s previous [] = ok s
    replay_moderation chan policies s previous (e ∷ events) = do
      check_moderation_event chan policies previous e
      next ← apply_moderation s e.action
      replay_moderation chan policies next (some e.id) events

    -- `derive_moderation` once the policy history has been read.
    unfoldable pub derive_moderation :
        Str → List PolicyEvent → List ModerationEvent → Result ModerationState
    derive_moderation chan policies events =
        replay_moderation chan policies no_tombstones none events
