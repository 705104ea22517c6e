-- ===== src/PolicyStore.antt =====
-- How src/store.rs reads the policy of a channel: the signed history, or else the cached policy.
pub mod Changes
pub mod Remote
pub mod Conflicts
use embernet.Prelude.{
  ℕ, Bytes, Str, Bool, true, false, ◌&&◌, not, List, [], ◌∷◌, ◌++◌, Option, none, some, ◌==◌,
  nat_eq,
}
use embernet.Fallible.{
  Result, ok, err, ensure, context, invalid_json, unsupported_policy_version,
  restricted_without_owner, private_but_open, not_a_reader, not_a_writer,
}
use embernet.Fallible.Checks.{◌>>=◌, ◌>>◌}
use embernet.Crates.{Crates, ToVec}
use embernet.Ndjson.{Json, read_ndjson}
use embernet.Channel.{ChannelDir, open_lock}
use embernet.Policy.{
  ChannelPolicy, default_policy, is_restricted, is_private, PolicyEvent, PolicyEventPayload,
  policy_allows_read, policy_allows_append,
}
use embernet.Policy.Actions.{validate_public_key}
use embernet.Policy.History.{derive_policy}

abbrev pub has_owner : Option Str → Bool
has_owner none = false
has_owner (some o) = true

module _ ⦃k : Crates⦄ where
  unfoldable pub validate_keys : List Str → Result (Unit {0})
  validate_keys [] = ok tt
  validate_keys (key ∷ keys) = do validate_public_key key; validate_keys keys

  abbrev pub validate_owner : Option Str → Result (Unit {0})
  validate_owner none = ok tt
  validate_owner (some owner) = validate_public_key owner

  -- The tests of `read_policy_cache` on what the file holds.
  unfoldable pub check_cached : ChannelPolicy → Result ChannelPolicy
  check_cached p = do
    ensure (p.version == 1) unsupported_policy_version
    ensure (not (is_restricted p.mode && not (has_owner p.owner))) restricted_without_owner
    validate_owner p.owner
    validate_keys (p.moderators ++ p.writers ++ p.readers)
    ensure (not (is_private p.visibility && not (is_restricted p.mode))) private_but_open
    ok p

module _ ⦃k : Crates⦄ ⦃cache_json : Json ChannelPolicy⦄ where
  unfoldable pub read_policy_cache : ChannelDir → Result ChannelPolicy
  read_policy_cache d = elim d.policy_cache [
    | none ↦ ok default_policy
    | some bytes ↦ do p ← context (cache_json.from_slice bytes) invalid_json; check_cached p
  ]

module _ ⦃k : Crates⦄ ⦃j : ToVec PolicyEventPayload⦄ ⦃event_json : Json PolicyEvent⦄ where
  -- `read_policy_history_unlocked` on the content of the file.
  unfoldable pub read_history : Str → Option Bytes → Result (List PolicyEvent)
  read_history chan none = ok []
  read_history chan (some bytes) = do
    events ← read_ndjson bytes
    derive_policy chan events
    ok events

  abbrev pub read_policy_history_unlocked : Str → ChannelDir → Result (List PolicyEvent)
  read_policy_history_unlocked chan d = read_history chan d.policy_log

  abbrev pub read_policy_history : Str → ChannelDir → Result (List PolicyEvent)
  read_policy_history chan d = do open_lock d; read_policy_history_unlocked chan d

  module _ ⦃cache_json : Json ChannelPolicy⦄ where
    unfoldable pub read_channel_policy : Str → ChannelDir → Result ChannelPolicy
    read_channel_policy chan d = elim d.policy_log [
      | none ↦ read_policy_cache d
      | some bytes ↦ do events ← read_policy_history chan d; derive_policy chan events
    ]

    unfoldable pub authorize_read : Str → Str → ChannelDir → Result (Unit {0})
    authorize_read chan key d = do
      p ← read_channel_policy chan d
      ensure (policy_allows_read p key) not_a_reader

    unfoldable pub authorize_append : Str → Str → ChannelDir → Result (Unit {0})
    authorize_append chan author d = do
      p ← read_channel_policy chan d
      ensure (policy_allows_append p author) not_a_writer
