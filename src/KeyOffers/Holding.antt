-- ===== src/KeyOffers/Holding.antt =====
-- Which keys of src/crypto.rs a ring holds: a key that is known by its id is the same key, where all
-- stand under their hashes.
use embernet.Prelude.{
  Bytes, Str, true, List, [], ◌∷◌, some, ◌≡◌, sym, ap, ◌∙◌, subst, str_eq, str_beq_iff, All, ◌==◌,
  Option-cases, Bool-cases, inl, inr,
}
use mathlib.Core.Option.{some-injective}
use embernet.Fallible.{ok}
use embernet.Crates.{Crates, HashLaws}
use embernet.Keyring.{ChannelKey, find_key}
use embernet.Encryption.{decode_key}
use embernet.KeyOffers.{is_known}
use embernet.KeyOffers.Accepting.{IsHonest}

-- Every key of the first ring is known, by its id, in the second.
abbrev pub Covers : List ChannelKey → List ChannelKey → Type 0
Covers keys ring = All (λ (x : ChannelKey). is_known x.id ring ≡ true) keys

-- A key that is known by its id.
known-found :
    (id : Str) (ring : List ChannelKey)
    → is_known id ring ≡ true
    → (y : ChannelKey) × (find_key id ring ≡ some y)
known-found id ring h = elim (Option-cases (find_key id ring)) [
  | inl e ↦ absurd (cc (rw (is_known, e) at h))
  | inr (y, e) ↦ (y, e)
]

module _ ⦃k : Crates⦄ where
  -- The ring has a key under the id of the key, of the same bytes.
  pub record Holds (ring : List ChannelKey) (x : ChannelKey) : Type 0 where
    pub own : ChannelKey
    pub raw : Bytes
    pub found : find_key x.id ring ≡ some own
    pub decoded : decode_key own ≡ ok raw
    pub same : decode_key x ≡ ok raw

  -- A key that is found stands under its hash, where all of the ring do.
  found-IsHonest :
      (id : Str) (y : ChannelKey) (ring : List ChannelKey)
      → All IsHonest ring
      → find_key id ring ≡ some y
      → IsHonest y × (y.id ≡ id)
  unfolding find_key
  found-IsHonest id y [] h e = absurd cc
  found-IsHonest id y (x ∷ ring) (good, h) e = elim (Bool-cases (x.id == id)) [
    | inl b ↦
        let one : x ≡ y = some-injective x y (rw b at e) in
        (
          subst IsHonest one good,
          ap (λ (z : ChannelKey). z.id) (sym one) ∙ (str_beq_iff x.id id).0 b,
        )
    | inr b ↦ found-IsHonest id y ring h (rw b at e)
  ]

  -- Of two keys that stand under their hashes, those under one id are one.
  honest-Holds :
      (x : ChannelKey) (ring : List ChannelKey)
      → HashLaws k
      → All IsHonest ring
      → IsHonest x
      → is_known x.id ring ≡ true
      → Holds ring x
  honest-Holds x ring hashes honest good known =
      let (y, found) = known-found x.id ring known in
      let (own, named) = found-IsHonest x.id y ring honest found in
      let e : own.raw ≡ good.raw =
        hashes.blake3-injective own.raw good.raw
          (hashes.hex-injective _ _ (own.named ∙ named ∙ sym good.named)) in
      record {
        own = y;
        raw = own.raw;
        found = found;
        decoded = own.decoded;
        same = good.decoded ∙ ap ok (sym e);
      }

  pub Covers-Holds :
      (keys ring : List ChannelKey)
      → HashLaws k
      → All IsHonest ring
      → All IsHonest keys
      → Covers keys ring
      → All (Holds ring) keys
  Covers-Holds [] ring hashes honest good covers = tt
  Covers-Holds (x ∷ keys) ring hashes honest (one, good) (known, covers) = (
    honest-Holds x ring hashes honest one known,
    Covers-Holds keys ring hashes honest good covers,
  )
