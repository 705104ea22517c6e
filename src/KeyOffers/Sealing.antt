-- ===== src/KeyOffers/Sealing.antt =====
-- The recipient of an offer that src/crypto.rs makes unwraps the key that was wrapped.
use embernet.Prelude.{
  Bytes, Str, true, some, ◌≡◌, refl, sym, ap, length, nat_eq, nat_beq_iff, str_eq, beq_refl,
  str_beq_iff,
}
use embernet.Fallible.{ok, context, ok-injective, context-eq_ok}
use embernet.Fallible.{wrap_failed}
use embernet.Fallible.Checks.{bind-eq_ok}
use embernet.Crates.{Crates, ToVec, SignLaws}
use embernet.Ciphers.{Ciphers, CipherLaws}
use embernet.Proto.{KeypairFile, sign_bytes}
use embernet.Proto.Envelopes.{OwnsKey, sign_bytes-verifies}
use embernet.Keyring.{ChannelKey}
use embernet.Encryption.{decode_key}
use embernet.KeyOffers.{
  KeyOffer, KeyOfferPayload, offer_aad, scalar_of, x25519_secret, x25519_public, offer_wrap_key,
  make_offer, unwrap_offer,
}

-- The public half of a key pair is a point, and the two sides of an exchange derive one secret.
pub record ExchangeLaws (k : Crates) (c : Ciphers) : Type 0 where
  pub point_of :
      (pair : Bytes)
      → k.is_keypair pair ≡ true
      → (point : Bytes) × (c.to_montgomery (k.public_half pair) ≡ some point)
  pub one_secret :
      (a b x y : Bytes)
      → k.is_keypair a ≡ true
      → k.is_keypair b ≡ true
      → c.to_montgomery (k.public_half a) ≡ some x
      → c.to_montgomery (k.public_half b) ≡ some y
      → c.diffie_hellman (scalar_of ⦃k = k⦄ ⦃c = c⦄ a) y
        ≡ c.diffie_hellman (scalar_of ⦃k = k⦄ ⦃c = c⦄ b) x

module _ ⦃k : Crates⦄ ⦃c : Ciphers⦄ (signing : SignLaws k) (exchange : ExchangeLaws k c) where
  public_point :
      (kf : KeypairFile) (pair : Bytes)
      → OwnsKey kf pair
      → (point : Bytes) × (x25519_public kf.public_key ≡ ok point)
        × (c.to_montgomery (k.public_half pair) ≡ some point)
  unfolding x25519_public
  public_point kf pair own =
      let (point, is_point) = exchange.point_of pair own.is_pair in
      (
        point,
        rw
            (
              own.matching,
              signing.decode_encode (k.public_half pair),
              (nat_beq_iff _ 32).1 (signing.length_public_half pair own.is_pair),
              is_point,
            )
            refl,
        is_point,
      )

  -- Both sides derive one key for wrapping.
  pub offer_wrap_key_agrees :
      (a b : KeypairFile) (pair_a pair_b : Bytes) (channel key_id : Str) (w : Bytes)
      → OwnsKey a pair_a
      → OwnsKey b pair_b
      → offer_wrap_key a b.public_key channel key_id ≡ ok w
      → offer_wrap_key b a.public_key channel key_id ≡ ok w
  unfolding offer_wrap_key x25519_secret
  offer_wrap_key_agrees a b pair_a pair_b channel key_id w own_a own_b h =
      let (x, public_a, at_a) = public_point a pair_a own_a in
      let (y, public_b, at_b) = public_point b pair_b own_b in
      let same = exchange.one_secret pair_a pair_b x y own_a.is_pair own_b.is_pair at_a at_b in
      let h₁ = rw (own_a.decoded, public_b) at h in rw (own_b.decoded, public_a, ← same) h₁

  -- The recipient unwraps the key that was wrapped, if its id is the hash of its 32 bytes.
  pub make-unwrap_offer :
      ⦃o : ToVec KeyOfferPayload⦄
      → CipherLaws k c
      → (channel : Str) (a b : KeypairFile) (pair_a pair_b nonce raw : Bytes) (x : ChannelKey)
        (offer : KeyOffer)
      → OwnsKey a pair_a
      → OwnsKey b pair_b
      → length nonce ≡ 24
      → decode_key x ≡ ok raw
      → length raw ≡ 32
      → k.hex_encode (k.blake3 raw) ≡ x.id
      → make_offer channel a b.public_key nonce x ≡ ok offer
      → (offer.key_id ≡ x.id) × (unwrap_offer channel b offer ≡ ok raw)
  unfolding make_offer unwrap_offer
  make-unwrap_offer ciphers channel a b pair_a pair_b nonce raw x offer own_a own_b size decoded
        full named h =
      let h₁ = rw decoded at h in
      let (w, wrap, h₂) = bind-eq_ok (offer_wrap_key a b.public_key channel x.id) _ h₁ in
      let aad = offer_aad channel x.id a.public_key b.public_key in
      let (sealed, worked, h₃) =
        bind-eq_ok (context (c.encrypt w nonce aad raw) wrap_failed) _ h₂ in
      let encrypted = context-eq_ok (c.encrypt w nonce aad raw) wrap_failed sealed worked in
      let (sig, signed, made) = bind-eq_ok (sign_bytes a _) _ h₃ in
      let e = ok-injective _ offer made in
      (
        sym (ap (λ (y : KeyOffer). y.key_id) e),
        rw
            (
              ← e,
              beq_refl channel,
              beq_refl b.public_key,
              sign_bytes-verifies a pair_a _ sig signing own_a signed,
              offer_wrap_key_agrees a b pair_a pair_b channel x.id w own_a own_b wrap,
              ciphers.b64_read_back nonce,
              (nat_beq_iff (length nonce) 24).1 size,
              ciphers.b64_read_back sealed,
              ciphers.decrypt_encrypt w nonce aad raw sealed encrypted,
              (nat_beq_iff (length raw) 32).1 full,
              (str_beq_iff _ x.id).1 named,
            )
            refl,
      )
