-- ===== src/Encryption.antt =====
-- Encrypting and decrypting the messages of private channels in src/crypto.rs, and
-- `sign_message_for_channel` and the decrypted tail of src/store.rs. The random bytes of nonces and
-- keys are arguments.
pub mod Utf8
pub mod RoundTrip
pub mod Signing
use embernet.Prelude.{
  ℕ, Bytes, Str, Bool, true, false, ◌&&◌, codes, List, [], ◌∷◌, ◌++◌, Option, none, some, length,
  ◌==◌, nat_eq, str_eq, is_empty,
}
use embernet.Fallible.{
  Result, ok, err, ensure, context, Action, reads, lift, pure, bad_base64, bad_channel_key,
  missing_key, already_encrypted, encryption_failed, bad_message_nonce, decryption_failed, not_utf8,
}
use embernet.Fallible.Checks
use embernet.Fallible.Checks.{◌>>=◌, ◌>>◌}
use embernet.Crates.{Crates, ToVec}
use embernet.Ciphers.{Ciphers}
use embernet.Ndjson.{Json}
use embernet.Proto.{KeypairFile, Body, text, encrypted, Message, Envelope, sign}
use embernet.Channel.{ChannelDir}
use embernet.Keyring.{ChannelKey, load_keys, current_channel_key, find_key}
use embernet.Encryption.Utf8.{is_utf8}

abbrev line_break : Str
line_break = b'\n' ∷ []

unfoldable pub message_aad : Str → Str → Bytes
message_aad channel key_id =
    codes "embernet-message-v1" ++ (line_break ++ (channel ++ (line_break ++ key_id)))

-- The text of a body that is not encrypted.
abbrev pub plain_text : Body → Result Bytes
plain_text (text t) = ok t
plain_text (encrypted i n c) = err already_encrypted

abbrev pub with_body : Body → Message → Message
with_body b m = record m { body = b }

module _ ⦃k : Crates⦄ where
  unfoldable pub decode_key : ChannelKey → Result Bytes
  decode_key x = do
    raw ← context (k.b64_decode x.key) bad_base64
    ensure (length raw == 32) bad_channel_key
    ok raw

  module _ ⦃c : Ciphers⦄ where
    -- Encrypting under a key.
    unfoldable pub seal : Str → Bytes → ChannelKey → Message → Result Message
    seal channel nonce x m = do
      raw ← decode_key x
      plain ← plain_text m.body
      ciphertext ← context (c.encrypt raw nonce (message_aad channel x.id) plain) encryption_failed
      ok (with_body (encrypted x.id (k.b64_encode nonce) (k.b64_encode ciphertext)) m)

    -- Decrypting with the keys at hand.
    unfoldable pub unseal : Str → List ChannelKey → Str → Str → Str → Result Bytes
    unseal channel keys key_id nonce ciphertext = do
      x ← context (find_key key_id keys) missing_key
      raw ← decode_key x
      n ← context (k.b64_decode nonce) bad_base64
      ensure (length n == 24) bad_message_nonce
      sealed ← context (k.b64_decode ciphertext) bad_base64
      plain ← context (c.decrypt raw n (message_aad channel key_id) sealed) decryption_failed
      ensure (is_utf8 plain) not_utf8
      ok plain

    module _ ⦃key_json : Json (List ChannelKey)⦄ where
      unfoldable pub encrypt_message : Str → Bytes → Message → ChannelDir → Result Message
      encrypt_message channel nonce m d = do x ← current_channel_key d; seal channel nonce x m

      abbrev pub decrypt_body : Envelope → ChannelDir → Body → Result Envelope
      decrypt_body e d (text t) = ok e
      decrypt_body e d (encrypted key_id nonce ciphertext) = do
        keys ← load_keys d
        plain ← unseal e.channel keys key_id nonce ciphertext
        ok (record e { msg = with_body (text plain) e.msg })

      unfoldable pub decrypt_envelope : Envelope → ChannelDir → Result Envelope
      decrypt_envelope e d = decrypt_body e d e.msg.body
