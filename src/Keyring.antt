-- ===== src/Keyring.antt =====
-- The keys of a channel in src/crypto.rs: loading, saving and making them. A new key is 32 random
-- bytes, which the caller passes in.
use embernet.Prelude.{
  Bytes, Str, List, [], ◌∷◌, ◌++◌, Option, none, some, ◌==◌, nat_eq, str_eq, last, if◌then◌else◌,
}
use embernet.Fallible.{Result, ok, context, Action, reads, pure, writes, invalid_json, missing_key}
use embernet.Fallible.Checks
use embernet.Fallible.Actions.{◌>>=◌, ◌>>◌}
use embernet.Crates.{Crates}
use embernet.Ndjson.{Json}
use embernet.Channel.{ChannelDir, open_lock}

pub record ChannelKey : Type 0 where
  pub id : Str
  pub key : Str

-- `keys.retain(|existing| existing.id != id)`.
unfoldable pub without_id : Str → List ChannelKey → List ChannelKey
without_id id [] = []
without_id id (x ∷ keys) = let rest = without_id id keys in if x.id == id then rest else x ∷ rest

unfoldable pub find_key : Str → List ChannelKey → Option ChannelKey
find_key id [] = none
find_key id (x ∷ keys) = if x.id == id then some x else find_key id keys

module _ ⦃j : Json (List ChannelKey)⦄ where
  unfoldable pub load_keys : ChannelDir → Result (List ChannelKey)
  load_keys d = elim d.keyring [
    | none ↦ ok []
    | some bytes ↦ context (j.from_slice bytes) invalid_json
  ]

  abbrev pub save_keys : List ChannelKey → Action ChannelDir (Unit {0})
  save_keys keys = writes (λ d. record d { keyring = some (j.to_vec keys) })

  -- The newest key is the last one.
  unfoldable pub current_channel_key : ChannelDir → Result ChannelKey
  current_channel_key d = Checks.◌>>=◌ (load_keys d) (λ keys. context (last keys) missing_key)

  module _ ⦃k : Crates⦄ where
    unfoldable pub new_key : Bytes → ChannelKey
    new_key raw = record { id = k.hex_encode (k.blake3 raw); key = k.b64_encode raw }

    unfoldable pub generate_channel_key : Bytes → Action ChannelDir ChannelKey
    generate_channel_key raw = do
      reads open_lock
      keys ← reads load_keys
      save_keys (without_id (new_key raw).id keys ++ new_key raw ∷ [])
      pure (new_key raw)
