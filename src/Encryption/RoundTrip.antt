-- ===== src/Encryption/RoundTrip.antt =====
-- A message that src/crypto.rs encrypts for a channel is read back by whoever has the key.
use embernet.Prelude.{Bytes, Str, true, List, some, ◌≡◌, refl, sym, ap, length, nat_eq, nat_beq_iff}
use embernet.Fallible.{ok, context, ok-injective, context-eq_ok, encryption_failed}
use embernet.Fallible.Checks.{bind-eq_ok}
use embernet.Crates.{Crates, ToVec}
use embernet.Ciphers.{Ciphers, CipherLaws}
use embernet.Ndjson.{Json}
use embernet.Proto.{KeypairFile, text, encrypted, Message, Envelope, signing_key, sign}
use embernet.Channel.{ChannelDir}
use embernet.Keyring.{ChannelKey, load_keys, current_channel_key, find_key}
use embernet.Encryption.Utf8.{is_utf8}
use embernet.Encryption.{
  message_aad, with_body, decode_key, seal, unseal, encrypt_message, decrypt_envelope,
}

module _ ⦃k : Crates⦄ ⦃v : ToVec Message⦄ where
  pub sign_carries :
      (kf : KeypairFile) (channel : Str) (m : Message) (e : Envelope)
      → sign kf channel m ≡ ok e
      → (e.channel ≡ channel) × (e.msg ≡ m)
  unfolding sign
  sign_carries kf channel m e h =
      let (pair, _, made) = bind-eq_ok (signing_key kf) _ h in
      let same = ok-injective _ e made in
      (sym (ap (λ (x : Envelope). x.channel) same), sym (ap (λ (x : Envelope). x.msg) same))

module _ ⦃k : Crates⦄ ⦃c : Ciphers⦄ (laws : CipherLaws k c) where
  -- What is sealed under a key is opened with a ring in which the key is found.
  seal-unseal :
      (channel nonce plain : Bytes) (x y : ChannelKey) (keys : List ChannelKey) (m m' : Message)
      → length nonce ≡ 24
      → m.body ≡ text plain
      → is_utf8 plain ≡ true
      → find_key x.id keys ≡ some y
      → decode_key y ≡ decode_key x
      → seal channel nonce x m ≡ ok m'
      → (ciphertext : Bytes) × (m'
          ≡ with_body (encrypted x.id (k.b64_encode nonce) (k.b64_encode ciphertext)) m)
        × (unseal channel keys x.id (k.b64_encode nonce) (k.b64_encode ciphertext) ≡ ok plain)
  unfolding seal unseal
  seal-unseal channel nonce plain x y keys m m' size body utf found same h =
      let (raw, decoded, h₁) = bind-eq_ok (decode_key x) _ h in
      let h₂ = rw body at h₁ in
      let (sealed, worked, h₃) =
        bind-eq_ok
          (context (c.encrypt raw nonce (message_aad channel x.id) plain) encryption_failed) _ h₂ in
      let made =
        context-eq_ok (c.encrypt raw nonce (message_aad channel x.id) plain) encryption_failed
          sealed worked in
      (
        sealed,
        sym (ok-injective _ m' h₃),
        rw
            (
              found,
              same,
              decoded,
              laws.b64_read_back nonce,
              laws.b64_read_back sealed,
              (nat_beq_iff (length nonce) 24).1 size,
              laws.decrypt_encrypt raw nonce (message_aad channel x.id) plain sealed made,
              utf,
            )
            refl,
      )

  -- A text that is encrypted for a channel and signed is read back, with all else that the envelope
  -- says unchanged, in every directory whose keyring has the same key under its id, provided that the
  -- nonce has 24 bytes and the text is UTF-8.
  pub encrypt-decrypt :
      ⦃v : ToVec Message⦄
      → ⦃key_json : Json (List ChannelKey)⦄
      → (channel nonce plain : Bytes) (x y : ChannelKey) (keys : List ChannelKey) (m m' : Message)
        (d d' : ChannelDir) (kf : KeypairFile) (e : Envelope)
      → length nonce ≡ 24
      → m.body ≡ text plain
      → is_utf8 plain ≡ true
      → current_channel_key d ≡ ok x
      → load_keys d' ≡ ok keys
      → find_key x.id keys ≡ some y
      → decode_key y ≡ decode_key x
      → encrypt_message channel nonce m d ≡ ok m'
      → sign kf channel m' ≡ ok e
      → decrypt_envelope e d' ≡ ok (record e { msg = m })
  unfolding encrypt_message decrypt_envelope
  encrypt-decrypt channel nonce plain x y keys m m' d d' kf e size body utf current loaded found
        same h s =
      let (there, carried) = sign_carries kf channel m' e s in
      let sealed = rw current at h in
      let (ciphertext, shape, opened) =
        seal-unseal channel nonce plain x y keys m m' size body utf found same sealed in
      rw (there, carried, shape, loaded, opened, ← body) refl
