-- ===== src/KeyOffers.antt =====
-- The exchange of channel keys in src/crypto.rs: keys are wrapped for one recipient under a secret
-- that both sides derive, and signed by the sender. The random nonces are arguments, one for each
-- key.
pub mod Sealing
pub mod Accepting
pub mod Holding
pub mod Sharing
use embernet.Prelude.{
  ℕ, zero, suc, Bytes, Str, Bool, true, false, ◌&&◌, not, codes, List, [], ◌∷◌, ◌++◌, ◌+◌, ◌-◌, ◌/◌,
  ◌*◌, ◌%◌, ltb, Option, none, some, length, take, ◌==◌, nat_eq, str_eq, if◌then◌else◌,
}
use embernet.Fallible.{
  Result, ok, err, ensure, context, Action, reads, lift, pure, bad_hex, bad_base64, bad_public_key,
  bad_verifying_key, non_contributory, wrap_failed, unwrap_failed, wrong_recipient, bad_offer_nonce,
  bad_unwrapped_key, wrong_key_id,
}
use embernet.Fallible.Checks.{◌>>=◌, ◌>>◌}
use embernet.Fallible.Actions
use embernet.Crates.{Crates, ToVec}
use embernet.Ciphers.{Ciphers}
use embernet.Ndjson.{Json}
use embernet.Proto.{KeypairFile, signing_key, sign_bytes, verify_bytes}
use embernet.Channel.{ChannelDir, open_lock}
use embernet.Keyring.{ChannelKey, load_keys, save_keys, find_key}
use embernet.Encryption.{decode_key}

pub record KeyOffer : Type 0 where
  pub channel : Str
  pub key_id : Str
  pub sender : Str
  pub recipient : Str
  pub nonce : Str
  pub ciphertext : Str
  pub sig : Str

pub record KeyOfferPayload : Type 0 where
  pub channel : Str
  pub key_id : Str
  pub sender : Str
  pub recipient : Str
  pub nonce : Str
  pub ciphertext : Str

abbrev line_break : Str
line_break = b'\n' ∷ []

unfoldable pub offer_aad : Str → Str → Str → Str → Bytes
offer_aad channel key_id sender recipient =
    codes "embernet-key-offer-v1"
    ++ (line_break
        ++ (channel
            ++ (line_break ++ (key_id ++ (line_break ++ (sender ++ (line_break ++ recipient)))))))

-- What the sender signs.
unfoldable pub signed_offer : ⦃o : ToVec KeyOfferPayload⦄ → KeyOfferPayload → Bytes
signed_offer ⦃o⦄ p = codes "embernet-key-offer-signature-v1" ++ (line_break ++ o.to_vec p)

abbrev pub payload_of : KeyOffer → KeyOfferPayload
payload_of x = record {
  channel = x.channel;
  key_id = x.key_id;
  sender = x.sender;
  recipient = x.recipient;
  nonce = x.nonce;
  ciphertext = x.ciphertext;
}

abbrev pub with_signature : KeyOfferPayload → Str → KeyOffer
with_signature p sig = record {
  channel = p.channel;
  key_id = p.key_id;
  sender = p.sender;
  recipient = p.recipient;
  nonce = p.nonce;
  ciphertext = p.ciphertext;
  sig = sig;
}

-- `&= 248` on a byte.
abbrev clear_low : ℕ → ℕ
clear_low b = b / 8 * 8

-- `&= 127` and `|= 64` on a byte.
abbrev set_high : ℕ → ℕ
set_high b = if ltb (b % 128) 64 then b % 128 + 64 else b % 128

unfoldable pub change_at : ℕ → (ℕ → ℕ) → Bytes → Bytes
change_at n f [] = []
change_at zero f (b ∷ s) = f b ∷ s
change_at (suc n) f (b ∷ s) = b ∷ change_at n f s

-- The scalar that X25519 takes.
unfoldable pub clamp : Bytes → Bytes
clamp s = change_at 31 set_high (change_at 0 clear_low s)

abbrev pub wrap_material : Bytes → Str → Str → Bytes
wrap_material shared channel key_id =
    codes "embernet-key-wrap-v1" ++ (line_break ++ (shared ++ (channel ++ (line_break ++ key_id))))

abbrev pub is_known : Str → List ChannelKey → Bool
is_known id keys = elim (find_key id keys) [ none ↦ false | some x ↦ true ]

module _ ⦃k : Crates⦄ where
  -- A key that the ring lacks goes to its end.
  unfoldable pub add_key : KeyOffer → Bytes → List ChannelKey → List ChannelKey
  add_key x raw keys =
      if is_known x.key_id keys
      then keys
      else keys ++ (record { id = x.key_id; key = k.b64_encode raw }) ∷ []

module _ ⦃k : Crates⦄ ⦃c : Ciphers⦄ where
  abbrev pub scalar_of : Bytes → Bytes
  scalar_of pair = clamp (take 32 (c.sha512 (c.seed_of pair)))

  unfoldable pub x25519_secret : KeypairFile → Result Bytes
  x25519_secret identity = do pair ← signing_key identity; ok (scalar_of pair)

  unfoldable pub x25519_public : Str → Result Bytes
  x25519_public ed25519_public = do
    bytes ← context (k.hex_decode ed25519_public) bad_hex
    ensure (length bytes == 32) bad_public_key
    context (c.to_montgomery bytes) bad_verifying_key

  unfoldable pub offer_wrap_key : KeypairFile → Str → Str → Str → Result Bytes
  offer_wrap_key identity other channel key_id = do
    secret ← x25519_secret identity
    point ← x25519_public other
    let shared = c.diffie_hellman secret point
    ensure (c.was_contributory shared) non_contributory
    ok (k.blake3 (wrap_material shared channel key_id))

  module _ ⦃o : ToVec KeyOfferPayload⦄ where
    -- One key, wrapped for the recipient.
    unfoldable pub make_offer : Str → KeypairFile → Str → Bytes → ChannelKey → Result KeyOffer
    make_offer channel sender recipient nonce x = do
      raw ← decode_key x
      wrap_key ← offer_wrap_key sender recipient channel x.id
      sealed ←
          context
            (c.encrypt wrap_key nonce (offer_aad channel x.id sender.public_key recipient) raw)
            wrap_failed
      let payload : KeyOfferPayload = record {
        channel = channel;
        key_id = x.id;
        sender = sender.public_key;
        recipient = recipient;
        nonce = k.b64_encode nonce;
        ciphertext = k.b64_encode sealed;
      }
      sig ← sign_bytes sender (signed_offer payload)
      ok (with_signature payload sig)

    -- The keys in the order of the ring; `nonces` draws one nonce after the other.
    unfoldable pub make_offers :
        Str → KeypairFile → Str → (ℕ → Bytes) → ℕ → List ChannelKey → Result (List KeyOffer)
    make_offers channel sender recipient nonces n [] = ok []
    make_offers channel sender recipient nonces n (x ∷ keys) = do
      offer ← make_offer channel sender recipient (nonces n) x
      more ← make_offers channel sender recipient nonces (suc n) keys
      ok (offer ∷ more)

    -- The key of an offer, once the offer has passed every test.
    unfoldable pub unwrap_offer : Str → KeypairFile → KeyOffer → Result Bytes
    unwrap_offer channel recipient x = do
      ensure ((x.channel == channel) && (x.recipient == recipient.public_key)) wrong_recipient
      verify_bytes x.sender x.sig (signed_offer (payload_of x))
      wrap_key ← offer_wrap_key recipient x.sender channel x.key_id
      nonce ← context (k.b64_decode x.nonce) bad_base64
      ensure (length nonce == 24) bad_offer_nonce
      sealed ← context (k.b64_decode x.ciphertext) bad_base64
      raw ←
          context
            (c.decrypt wrap_key nonce (offer_aad channel x.key_id x.sender x.recipient) sealed)
            unwrap_failed
      ensure (length raw == 32) bad_unwrapped_key
      ensure (k.hex_encode (k.blake3 raw) == x.key_id) wrong_key_id
      ok raw

    -- The loop of `accept_key_offers`: the ring, and how many keys were new.
    unfoldable pub accept_offers :
        Str → KeypairFile → List KeyOffer → List ChannelKey → ℕ → Result (List ChannelKey × ℕ)
    accept_offers channel recipient [] keys n = ok (keys, n)
    accept_offers channel recipient (x ∷ offers) keys n = do
      raw ← unwrap_offer channel recipient x
      accept_offers channel recipient offers (add_key x raw keys)
          (if is_known x.key_id keys then n else n + 1)

    module _ ⦃key_json : Json (List ChannelKey)⦄ where
      unfoldable pub make_key_offers :
          Str → KeypairFile → Str → (ℕ → Bytes) → ChannelDir → Result (List KeyOffer)
      make_key_offers channel sender recipient nonces d = do
        keys ← load_keys d
        make_offers channel sender recipient nonces 0 keys

      abbrev pub save_new : ℕ → List ChannelKey → Action ChannelDir (Unit {0})
      save_new zero keys = pure tt
      save_new (suc n) keys = save_keys keys

      unfoldable pub accept_key_offers : Str → KeypairFile → List KeyOffer → Action ChannelDir ℕ
      accept_key_offers channel recipient offers = Actions.◌>>◌ (reads open_lock) (
          Actions.◌>>=◌ (reads load_keys) λ keys.
            Actions.◌>>=◌ (lift (accept_offers channel recipient offers keys 0))
              λ p. Actions.◌>>◌ (save_new p.1 p.0) (pure p.1))
