-- ===== src/KeyOffers/Sharing.antt =====
-- The whole exchange of src/crypto.rs: the offers that a member makes are accepted by the one they
-- are for, who then has every key.
use embernet.Prelude.{
  ℕ, zero, suc, Bytes, Str, true, List, [], ◌∷◌, ◌++◌, some, ◌+◌, ◌≡◌, refl, sym, ap, ◌∙◌, subst,
  length, str_eq, str_beq_iff, All, All-append, Bool-cases, inl, inr, arith, if◌then◌else◌,
}
use mathlib.Core.List.{append-nil}
use embernet.Fallible.{ok, ok-injective}
use embernet.Fallible.Checks.{bind-eq_ok}
use embernet.Crates.{Crates, ToVec, SignLaws, HashLaws}
use embernet.Ciphers.{Ciphers, CipherLaws}
use embernet.Ndjson.{Json, JsonLaws}
use embernet.Proto.{KeypairFile}
use embernet.Proto.Envelopes.{OwnsKey}
use embernet.Channel.{ChannelDir, open_lock}
use embernet.Keyring.{ChannelKey, find_key, load_keys}
use embernet.KeyOffers.{
  KeyOffer, KeyOfferPayload, make_offer, make_offers, is_known, add_key, accept_offers,
  make_key_offers, accept_key_offers,
}
use embernet.KeyOffers.Sealing.{ExchangeLaws, make-unwrap_offer}
use embernet.KeyOffers.Holding.{Covers, Holds, Covers-Holds}
use embernet.KeyOffers.Accepting.{IsHonest, accept_offers-IsExtended}

is_known-append :
    (id : Str) (keys more : List ChannelKey)
    → is_known id keys ≡ true
    → is_known id (keys ++ more) ≡ true
unfolding find_key
is_known-append id [] more h = cc
is_known-append id (x ∷ keys) more h = ground (arith, is_known-append id keys more)

is_known-last :
    (id key : Str) (keys : List ChannelKey)
    → is_known id (keys ++ (record { id = id; key = key }) ∷ []) ≡ true
unfolding find_key
is_known-last id key [] = ground (arith, str_beq_iff id id)
is_known-last id key (x ∷ keys) = ground (arith, is_known-last id key keys)

module _ ⦃k : Crates⦄ where
  is_known-add_key :
      (x : KeyOffer) (raw : Bytes) (keys : List ChannelKey)
      → is_known x.key_id (add_key x raw keys) ≡ true
  unfolding add_key
  is_known-add_key x raw keys = elim (Bool-cases (is_known x.key_id keys)) [
    | inl b ↦ rw b b
    | inr b ↦ rw b (is_known-last x.key_id (k.b64_encode raw) keys)
  ]

empty_of_length {ℓ} : {A : Type ℓ} (xs : List A) → length xs ≡ 0 → xs ≡ []
empty_of_length [] h = refl
empty_of_length (x ∷ xs) h = absurd (omega arith)

module _ ⦃k : Crates⦄ ⦃c : Ciphers⦄ ⦃o : ToVec KeyOfferPayload⦄ (signing : SignLaws k)
    (exchange : ExchangeLaws k c) (ciphers : CipherLaws k c) (channel : Str) (a b : KeypairFile)
    (pair_a pair_b : Bytes) (own_a : OwnsKey a pair_a) (own_b : OwnsKey b pair_b)
    (nonces : ℕ → Bytes) (sized : (i : ℕ) → length (nonces i) ≡ 24) where
  make-accept_offers :
      (keys : List ChannelKey) (i : ℕ) (offers : List KeyOffer) (ring : List ChannelKey) (n : ℕ)
      → All IsHonest keys
      → make_offers channel a b.public_key nonces i keys ≡ ok offers
      → (ring' : List ChannelKey) × (m : ℕ) × (accept_offers channel b offers ring n
          ≡ ok (ring', m))
        × Covers keys ring'
  unfolding make_offers accept_offers
  make-accept_offers [] i offers ring n honest h =
      (ring, n, rw (← ok-injective [] offers h) refl, tt)
  make-accept_offers (x ∷ keys) i offers ring n (good, honest) h =
      let (offer, made, h₁) = bind-eq_ok (make_offer channel a b.public_key (nonces i) x) _ h in
      let (more, rest, h₂) =
        bind-eq_ok (make_offers channel a b.public_key nonces (suc i) keys) _ h₁ in
      let (named, unwrapped) =
        make-unwrap_offer signing exchange ciphers channel a b pair_a pair_b (nonces i) good.raw x
          offer own_a own_b (sized i) good.decoded good.full good.named made in
      let next = add_key offer good.raw ring in
      let count = if is_known offer.key_id ring then n else n + 1 in
      let (ring', m, accepted, covers) =
        make-accept_offers keys (suc i) more next count honest rest in
      let grown = accept_offers-IsExtended ciphers channel b more next ring' count m accepted in
      let known =
        is_known-append offer.key_id next grown.added (is_known-add_key offer good.raw ring) in
      (
        ring',
        m,
        rw (← ok-injective (offer ∷ more) offers h₂, unwrapped) accepted,
        (rw (← named, grown.behind) known, covers),
      )

module _ ⦃key_json : Json (List ChannelKey)⦄ where
  -- A channel's directory after an exchange of keys: only the ring has changed.
  pub record HasRing (d d' : ChannelDir) (ring : List ChannelKey) : Type 0 where
    pub loads : load_keys d' ≡ ok ring
    pub only_keys : d' ≡ record d { keyring = d'.keyring }

module _ ⦃k : Crates⦄ ⦃c : Ciphers⦄ ⦃o : ToVec KeyOfferPayload⦄ ⦃key_json : Json (List ChannelKey)⦄
    (ciphers : CipherLaws k c) (laws : JsonLaws key_json) (channel : Str)
    (recipient : KeypairFile) where
  -- What the loop has found is what the file holds afterwards.
  accept-HasRing :
      (offers : List KeyOffer) (d : ChannelDir) (ring ring' : List ChannelKey) (m : ℕ)
      → open_lock d ≡ ok tt
      → load_keys d ≡ ok ring
      → accept_offers channel recipient offers ring 0 ≡ ok (ring', m)
      → (d' : ChannelDir) × (accept_key_offers channel recipient offers d ≡ (ok m, d'))
        × HasRing d d' ring'
  unfolding accept_key_offers load_keys
  accept-HasRing offers d ring ring' zero opened loaded accepted =
      let grown =
        accept_offers-IsExtended ciphers channel recipient offers ring ring' 0 0 accepted in
      let none_new = empty_of_length grown.added (omega (arith, grown.counted)) in
      (
        d,
        rw (opened, loaded, accepted) refl,
        record {
          loads = loaded ∙ ap ok (sym (grown.behind ∙ rw none_new (append-nil ring)));
          only_keys = refl;
        },
      )
  accept-HasRing offers d ring ring' (suc m) opened loaded accepted = (
    record d { keyring = some (key_json.to_vec ring') },
    rw (opened, loaded, accepted) refl,
    record { loads = rw (laws.read_back ring') refl; only_keys = refl },
  )

module _ ⦃k : Crates⦄ ⦃c : Ciphers⦄ ⦃o : ToVec KeyOfferPayload⦄
    ⦃key_json : Json (List ChannelKey)⦄ where
  -- If every key of a member and of another identity has 32 bytes and stands under its own hash, then
  -- the offers that the member makes for the other are accepted by it without an error, and afterwards
  -- it has, under the id of each key of the member, a key of the same bytes. No other file of its
  -- channel changes.
  pub make-accept_key_offers :
      (channel : Str) (a b : KeypairFile) (pair_a pair_b : Bytes) (nonces : ℕ → Bytes)
      (keys ring : List ChannelKey) (offers : List KeyOffer) (d e : ChannelDir)
      → SignLaws k
      → HashLaws k
      → ExchangeLaws k c
      → CipherLaws k c
      → JsonLaws key_json
      → OwnsKey a pair_a
      → OwnsKey b pair_b
      → ((i : ℕ) → length (nonces i) ≡ 24)
      → load_keys d ≡ ok keys
      → All IsHonest keys
      → make_key_offers channel a b.public_key nonces d ≡ ok offers
      → open_lock e ≡ ok tt
      → load_keys e ≡ ok ring
      → All IsHonest ring
      → (n : ℕ) × (e' : ChannelDir) × (ring' : List ChannelKey) × (accept_key_offers channel b
            offers e
          ≡ (ok n, e'))
        × HasRing e e' ring'
        × All (Holds ring') keys
  unfolding make_key_offers
  make-accept_key_offers channel a b pair_a pair_b nonces keys ring offers d e signing hashes
        exchange ciphers json own_a own_b sized loaded honest h opened has own_honest =
      let made = rw loaded at h in
      let (ring', n, accepted, covers) =
        make-accept_offers signing exchange ciphers channel a b pair_a pair_b own_a own_b nonces
          sized keys 0 offers ring 0 honest made in
      let (e', done, after) =
        accept-HasRing ciphers json channel b offers e ring ring' n opened has accepted in
      let grown = accept_offers-IsExtended ciphers channel b offers ring ring' 0 n accepted in
      let all_honest : All IsHonest ring' =
        subst (All IsHonest) (sym grown.behind)
          (All-append IsHonest ring grown.added own_honest grown.honest) in
      (n, e', ring', done, after, Covers-Holds keys ring' hashes all_honest honest covers)
