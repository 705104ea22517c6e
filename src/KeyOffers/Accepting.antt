-- ===== src/KeyOffers/Accepting.antt =====
-- What `accept_key_offers` of src/crypto.rs does to a ring of keys: it only adds keys, and none but
-- under their hashes.
use embernet.Prelude.{
  ℕ, Bytes, Str, true, List, [], ◌∷◌, ◌++◌, ◌+◌, ◌≡◌, refl, sym, ap, ◌∙◌, length, ◌==◌, nat_eq,
  str_eq, nat_beq_iff, str_beq_iff, ◌&&◌, All, Bool-cases, inl, inr, arith,
}
use mathlib.Core.List.{append-nil, append_assoc}
use embernet.Fallible.{
  ok, ensure, context, ok-injective, true_of_ensure, bad_unwrapped_key, wrong_key_id,
  bad_offer_nonce, bad_base64, unwrap_failed, wrong_recipient,
}
use embernet.Fallible.Checks.{bind-eq_ok}
use embernet.Crates.{Crates, ToVec}
use embernet.Ciphers.{Ciphers, CipherLaws}
use embernet.Proto.{KeypairFile, verify_bytes}
use embernet.Keyring.{ChannelKey}
use embernet.Encryption.{decode_key}
use embernet.KeyOffers.{
  KeyOffer, KeyOfferPayload, signed_offer, payload_of, offer_wrap_key, unwrap_offer, is_known,
  add_key, accept_offers,
}

module _ ⦃k : Crates⦄ where
  -- A key of 32 bytes under its hash.
  pub record IsHonest (x : ChannelKey) : Type 0 where
    pub raw : Bytes
    pub decoded : decode_key x ≡ ok raw
    pub full : length raw ≡ 32
    pub named : k.hex_encode (k.blake3 raw) ≡ x.id

module _ ⦃k : Crates⦄ ⦃c : Ciphers⦄ ⦃o : ToVec KeyOfferPayload⦄ where
  -- What an offer that is unwrapped has shown.
  pub record IsProven (channel : Str) (recipient : KeypairFile) (x : KeyOffer) (raw : Bytes)
      : Type 0 where
    pub addressed : ((x.channel == channel) && (x.recipient == recipient.public_key)) ≡ true
    pub signed : verify_bytes x.sender x.sig (signed_offer (payload_of x)) ≡ ok tt
    pub full : length raw ≡ 32
    pub named : k.hex_encode (k.blake3 raw) ≡ x.key_id

  pub unwrap_offer-IsProven :
      (channel : Str) (recipient : KeypairFile) (x : KeyOffer) (raw : Bytes)
      → unwrap_offer channel recipient x ≡ ok raw
      → IsProven channel recipient x raw
  unfolding unwrap_offer
  unwrap_offer-IsProven channel recipient x raw h =
      let (_, to, h₁) = bind-eq_ok (ensure _ wrong_recipient) _ h in
      let (_, signed, h₂) = bind-eq_ok (verify_bytes x.sender x.sig _) _ h₁ in
      let (w, _, h₃) = bind-eq_ok (offer_wrap_key recipient x.sender channel x.key_id) _ h₂ in
      let (nonce, _, h₄) = bind-eq_ok (context (k.b64_decode x.nonce) bad_base64) _ h₃ in
      let (_, _, h₅) = bind-eq_ok (ensure (length nonce == 24) bad_offer_nonce) _ h₄ in
      let (sealed, _, h₆) = bind-eq_ok (context (k.b64_decode x.ciphertext) bad_base64) _ h₅ in
      let (key, _, h₇) = bind-eq_ok (context (c.decrypt w nonce _ sealed) unwrap_failed) _ h₆ in
      let (_, full, h₈) = bind-eq_ok (ensure (length key == 32) bad_unwrapped_key) _ h₇ in
      let (_, named, h₉) =
        bind-eq_ok (ensure (k.hex_encode (k.blake3 key) == x.key_id) wrong_key_id) _ h₈ in
      let e = ok-injective key raw h₉ in
      record {
        addressed = true_of_ensure _ wrong_recipient to;
        signed = signed;
        full = ap length (sym e) ∙ (nat_beq_iff (length key) 32).0 (true_of_ensure _ _ full);
        named =
            ap (λ b. k.hex_encode (k.blake3 b)) (sym e)
            ∙ (str_beq_iff _ x.key_id).0 (true_of_ensure _ _ named);
      }

  -- The ring after some offers: the old keys in their place and honest new ones behind them, which
  -- are counted.
  pub record IsExtended (keys keys' : List ChannelKey) (n m : ℕ) : Type 0 where
    pub added : List ChannelKey
    pub behind : keys' ≡ keys ++ added
    pub honest : All IsHonest added
    pub counted : m ≡ n + length added

  module _ (laws : CipherLaws k c) where
    new_key-IsHonest :
        (channel : Str) (recipient : KeypairFile) (x : KeyOffer) (raw : Bytes)
        → IsProven channel recipient x raw
        → IsHonest (record { id = x.key_id; key = k.b64_encode raw })
    unfolding decode_key
    new_key-IsHonest channel recipient x raw p = record {
      raw = raw;
      decoded = rw (laws.b64_read_back raw, (nat_beq_iff (length raw) 32).1 p.full) refl;
      full = p.full;
      named = p.named;
    }

    -- The offers that are accepted leave the keys of the ring in their places, and add behind them
    -- only keys of 32 bytes under their own hashes; the count is that of the keys added.
    pub accept_offers-IsExtended :
        (channel : Str) (recipient : KeypairFile) (offers : List KeyOffer)
        (keys keys' : List ChannelKey) (n m : ℕ)
        → accept_offers channel recipient offers keys n ≡ ok (keys', m)
        → IsExtended keys keys' n m
    unfolding accept_offers add_key
    accept_offers-IsExtended channel recipient [] keys keys' n m h =
        let e = ok-injective (keys, n) (keys', m) h in
        record {
          added = [];
          behind = sym (ap (λ (p : List ChannelKey × ℕ). p.0) e) ∙ sym (append-nil keys);
          honest = tt;
          counted = omega (arith, ap (λ (p : List ChannelKey × ℕ). p.1) e);
        }
    accept_offers-IsExtended channel recipient (x ∷ offers) keys keys' n m h =
        let (raw, unwrapped, rest) = bind-eq_ok (unwrap_offer channel recipient x) _ h in
        elim (Bool-cases (is_known x.key_id keys)) [
          | inl b ↦ accept_offers-IsExtended channel recipient offers keys keys' n m (rw b at rest)
          | inr b ↦
              let proven = unwrap_offer-IsProven channel recipient x raw unwrapped in
              let new : ChannelKey = record { id = x.key_id; key = k.b64_encode raw } in
              let later =
                accept_offers-IsExtended channel recipient offers (keys ++ new ∷ []) keys' (n + 1) m
                  (rw b at rest) in
              record {
                added = new ∷ later.added;
                behind = later.behind ∙ append_assoc keys (new ∷ []) later.added;
                honest = (new_key-IsHonest channel recipient x raw proven, later.honest);
                counted = omega (arith, later.counted);
              }
        ]
