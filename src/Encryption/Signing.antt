-- ===== src/Encryption/Signing.antt =====
-- `sign_message_for_channel`, `read_channel_tail_decrypted_with_options` and
-- `read_channel_tail_decrypted` of src/store.rs.
use embernet.Prelude.{ℕ, Bytes, Str, Bool, true, false, ◌&&◌, List, [], ◌∷◌, is_empty}
use embernet.Fallible.{Result, ok, Action, reads, lift, pure}
use embernet.Fallible.Checks
use embernet.Fallible.Actions.{◌>>=◌, ◌>>◌}
use embernet.Crates.{Crates, ToVec}
use embernet.Ciphers.{Ciphers}
use embernet.Redb.{Redb}
use embernet.Ndjson.{Json}
use embernet.Proto.{KeypairFile, Message, Envelope, sign}
use embernet.Channel.{ChannelDir}
use embernet.Keyring.{ChannelKey, load_keys, generate_channel_key}
use embernet.Policy.{ChannelPolicy, is_private, is_owner, PolicyEvent, PolicyEventPayload}
use embernet.PolicyStore.{read_channel_policy}
use embernet.Moderation.{ModerationEvent, ModerationEventPayload}
use embernet.MessageLog.Messages.{IndexedDir}
use embernet.MessageLog.Reading.{read_channel_tail_with_options}
use embernet.Encryption.{encrypt_message, decrypt_envelope}

module _ ⦃k : Crates⦄ ⦃c : Ciphers⦄ ⦃v : ToVec Message⦄ ⦃key_json : Json (List ChannelKey)⦄ where
  module _ ⦃p : ToVec PolicyEventPayload⦄ ⦃policy_json : Json PolicyEvent⦄
      ⦃cache_json : Json ChannelPolicy⦄ (chan : Str) (signer : KeypairFile)
      (raw nonce : Bytes) where
    -- The owner of a private channel without keys makes the first one.
    abbrev pub ensure_key : Bool → Action ChannelDir (Unit {0})
    ensure_key false = pure tt
    ensure_key true = do generate_channel_key raw; pure tt

    -- The message as it is signed: encrypted, where the channel is private.
    unfoldable pub prepare_message : ChannelPolicy → Message → Bool → Action ChannelDir Message
    prepare_message policy m false = pure m
    prepare_message policy m true = do
      keys ← reads load_keys
      ensure_key (is_empty keys && is_owner policy signer.public_key)
      reads (encrypt_message chan nonce m)

    unfoldable pub sign_message_for_channel : Message → Action ChannelDir Envelope
    sign_message_for_channel m = do
      policy ← reads (read_channel_policy chan)
      prepared ← prepare_message policy m (is_private policy.visibility)
      lift (sign signer chan prepared)

  -- `iter().map(decrypt_envelope).collect()`.
  unfoldable pub decrypt_all : List Envelope → ChannelDir → Result (List Envelope)
  decrypt_all [] d = ok []
  decrypt_all (e ∷ es) d =
      Checks.◌>>=◌ (decrypt_envelope e d)
        λ clear. Checks.◌>>=◌ (decrypt_all es d) λ more. ok (clear ∷ more)

  module _ ⦃r : Redb⦄ ⦃j : Json Envelope⦄ ⦃m : ToVec ModerationEventPayload⦄
      ⦃p : ToVec PolicyEventPayload⦄ ⦃policy_json : Json PolicyEvent⦄
      ⦃moderation_json : Json ModerationEvent⦄ (chan : Str) where
    unfoldable pub read_channel_tail_decrypted_with_options :
        ℕ → Bool → Action IndexedDir (List Envelope)
    read_channel_tail_decrypted_with_options n all = do
      sealed ← read_channel_tail_with_options chan n all
      reads (λ s. decrypt_all sealed s.dir)

    unfoldable pub read_channel_tail_decrypted : ℕ → Action IndexedDir (List Envelope)
    read_channel_tail_decrypted n = read_channel_tail_decrypted_with_options n false
