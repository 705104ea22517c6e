-- ===== src/Sync/Client/Events.antt =====
-- How the asking side of src/sync.rs tells the texts of the peer apart: it tries one kind of message
-- after the other, and takes any other text for an envelope.
use embernet.Prelude.{Bytes, Str, Bool, true, false, codes, Option, none, some, ◌==◌, str_eq}
use embernet.Sync.{
  SyncJson, PolicySync, ModerationSync, KeySync, ChunkDiff, WantMessage, SyncResponse,
}

pub data ClientEvent : Type 0 where
  completed failed : ClientEvent
  policy_event : PolicySync → ClientEvent
  moderation_event : ModerationSync → ClientEvent
  key_event : KeySync → ClientEvent
  diff_event : ChunkDiff → ClientEvent
  want_event : WantMessage → ClientEvent
  other_text : ClientEvent

-- A message that parses and carries the type.
abbrev typed : {A : Type 0} → Str → (A → Str) → Option A → Option A
typed word type_of none = none
typed word type_of (some a) = elim (type_of a == word) [ true ↦ some a | false ↦ none ]

abbrev has_status : Str → Option SyncResponse → Bool
has_status word none = false
has_status word (some x) = x.status == word

module _ ⦃s : SyncJson⦄ where
  abbrev as_want : Bytes → ClientEvent
  as_want t = elim (typed (codes "want") (λ x. x.msg_type) (s.want.from_slice t)) [
    | some x ↦ want_event x
    | none ↦ other_text
  ]

  abbrev as_diff : Bytes → ClientEvent
  as_diff t = elim (typed (codes "chunk_diff") (λ x. x.msg_type) (s.diff.from_slice t)) [
    | some x ↦ diff_event x
    | none ↦ as_want t
  ]

  abbrev as_keys : Bytes → ClientEvent
  as_keys t = elim (typed (codes "key_sync") (λ x. x.msg_type) (s.keys.from_slice t)) [
    | some x ↦ key_event x
    | none ↦ as_diff t
  ]

  abbrev as_moderation : Bytes → ClientEvent
  as_moderation t =
      elim (typed (codes "moderation_sync") (λ x. x.msg_type) (s.moderation.from_slice t)) [
        | some x ↦ moderation_event x
        | none ↦ as_keys t
      ]

  abbrev as_policy : Bytes → ClientEvent
  as_policy t = elim (typed (codes "policy_sync") (λ x. x.msg_type) (s.policy.from_slice t)) [
    | some x ↦ policy_event x
    | none ↦ as_moderation t
  ]

  -- A response of any type that says that the session is complete, or that it failed, goes first.
  unfoldable pub classify : Bytes → ClientEvent
  classify t = elim (has_status (codes "complete") (s.response.from_slice t)) [
    | true ↦ completed
    | false ↦ elim (has_status (codes "error") (s.response.from_slice t)) [
      | true ↦ failed
      | false ↦ as_policy t
    ]
  ]
