-- ===== src/ModerationStore.antt =====
-- How src/store.rs reads the moderation of a channel. Every reading replays the events against the
-- policy history that the channel has at that time.
pub mod Reading
pub mod Changes
pub mod Remote
pub mod Conflicts
use embernet.Prelude.{Bytes, Str, List, [], ◌∷◌, Option, none, some, last}
use embernet.Fallible.{Result, ok, err, Action, writes}
use embernet.Fallible.Checks.{◌>>=◌, ◌>>◌}
use embernet.Crates.{Crates, ToVec}
use embernet.Ndjson.{Json, read_ndjson, encode_lines}
use embernet.Channel.{ChannelDir, open_lock, append_file}
use embernet.Policy.{PolicyEvent, PolicyEventPayload}
use embernet.PolicyStore.{read_policy_history}
use embernet.Moderation.Tombstones.{ModerationState}
use embernet.Moderation.{ModerationEvent, ModerationEventPayload, derive_moderation}

-- The id of the newest event.
abbrev pub last_moderation_id : List ModerationEvent → Option Str
last_moderation_id events = elim (last events) [ none ↦ none | some e ↦ some e.id ]

module _ ⦃state_json : Json ModerationState⦄ where
  -- `write_moderation_cache`.
  abbrev pub write_moderation_cache : ModerationState → Action ChannelDir (Unit {0})
  write_moderation_cache s =
      writes (λ d. record d { moderation_cache = some (state_json.to_vec s) })

module _ ⦃moderation_json : Json ModerationEvent⦄ where
  -- Appending events to `moderation.ndjson`.
  abbrev pub append_moderation_events : List ModerationEvent → Action ChannelDir (Unit {0})
  append_moderation_events events =
      writes (λ d. record d { moderation_log = append_file d.moderation_log (encode_lines events) })

module _ ⦃k : Crates⦄ ⦃m : ToVec ModerationEventPayload⦄ ⦃j : ToVec PolicyEventPayload⦄
    ⦃policy_json : Json PolicyEvent⦄ (chan : Str) where
  -- `derive_moderation` with its reading of the policy history.
  unfoldable pub validate_moderation_history :
      List ModerationEvent → ChannelDir → Result ModerationState
  validate_moderation_history events d = do
    policies ← read_policy_history chan d
    derive_moderation chan policies events

  module _ ⦃moderation_json : Json ModerationEvent⦄ where
    -- `read_moderation_history_unlocked` on the content of the file.
    unfoldable pub read_moderation : Option Bytes → ChannelDir → Result (List ModerationEvent)
    read_moderation none d = ok []
    read_moderation (some bytes) d = do
      events ← read_ndjson bytes
      validate_moderation_history events d
      ok events

    abbrev pub read_moderation_history_unlocked : ChannelDir → Result (List ModerationEvent)
    read_moderation_history_unlocked d = read_moderation d.moderation_log d

    unfoldable pub read_moderation_history : ChannelDir → Result (List ModerationEvent)
    read_moderation_history d = do open_lock d; read_moderation_history_unlocked d

    unfoldable pub moderation_state : ChannelDir → Result ModerationState
    moderation_state d = do events ← read_moderation_history d; validate_moderation_history events d
