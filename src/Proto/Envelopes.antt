-- ===== src/Proto/Envelopes.antt =====
-- What `Envelope::verify` of src/proto.rs accepts, and that it accepts what `Envelope::sign` makes.
use embernet.Prelude.{
  Bytes, Str, true, some, ◌≡◌, refl, nat_eq, str_eq, length, arith, nat_beq_iff, str_beq_iff, ap,
  sym, ◌∙◌, ◌↔◌, Option-cases, inl, inr,
}
use embernet.Fallible.{ok, ok-injective}
use embernet.Crates.{Crates, ToVec, SignLaws, HashLaws, VecLaws}
use embernet.Proto.{
  KeypairFile, Message, Envelope, signed_payload, signing_key, sign, verify, sign_bytes,
  verify_bytes,
}

module _ ⦃k : Crates⦄ where
  -- The identity file holds the public half of its own key pair.
  pub record OwnsKey (kf : KeypairFile) (pair : Bytes) : Type 0 where
    pub decoded : signing_key kf ≡ ok pair
    pub is_pair : k.is_keypair pair ≡ true
    pub matching : kf.public_key ≡ k.hex_encode (k.public_half pair)

  -- What an identity signs verifies under its public key.
  pub sign_bytes-verifies :
      (kf : KeypairFile) (pair payload : Bytes) (sig : Str)
      → SignLaws k
      → OwnsKey kf pair
      → sign_bytes kf payload ≡ ok sig
      → verify_bytes kf.public_key sig payload ≡ ok tt
  unfolding sign_bytes verify_bytes
  sign_bytes-verifies kf pair payload sig laws own h =
      let e : k.hex_encode (k.sign pair payload) ≡ sig = ok-injective _ sig (rw own.decoded at h) in
      rw
        (
          own.matching,
          ← e,
          laws.decode_encode (k.public_half pair),
          laws.decode_encode (k.sign pair payload),
          (nat_beq_iff _ 32).1 (laws.length_public_half pair own.is_pair),
          (nat_beq_iff _ 64).1 (laws.length_sign pair payload),
          laws.public_half_ok pair own.is_pair,
          laws.verifies_sign pair payload own.is_pair,
        )
        refl

module _ ⦃k : Crates⦄ ⦃j : ToVec Message⦄ where
  -- An envelope is authentic: its signature is that of its sender over channel and message, and its
  -- id and time stamp are those of the message.
  pub record IsAuthentic (e : Envelope) : Type 0 where
    pub key : Bytes
    pub signature : Bytes
    pub key_of_sender : k.hex_decode e.from ≡ some key
    pub key_length : length key ≡ 32
    pub key_ok : k.is_verifying_key key ≡ true
    pub signature_of_envelope : k.hex_decode e.sig ≡ some signature
    pub signature_length : length signature ≡ 64
    pub signed : k.verifies key signature (signed_payload e.channel (j.to_vec e.msg)) ≡ true
    pub same_time : e.ts ≡ e.msg.ts
    pub content_id : e.id ≡ k.hex_encode (k.blake3 (j.to_vec e.msg))

  -- `Envelope::verify` succeeds on authentic envelopes only.
  pub verify-IsAuthentic : (e : Envelope) → verify e ≡ ok tt → IsAuthentic e
  unfolding verify
  verify-IsAuthentic e h = elim (Option-cases (k.hex_decode e.from)) [
    | inl p ↦ absurd (ground arith)
    | inr (pk, p) ↦ elim (Option-cases (k.hex_decode e.sig)) [
      | inl q ↦ absurd (ground arith)
      | inr (sig, q) ↦ record {
        key = pk;
        signature = sig;
        key_of_sender = p;
        key_length = ground (arith);
        key_ok = ground (arith);
        signature_of_envelope = q;
        signature_length = ground arith;
        signed = ground arith;
        same_time = ground arith;
        content_id = ground (arith, str_beq_iff e.id (k.hex_encode (k.blake3 (j.to_vec e.msg))));
      }
    ]
  ]

  -- `Envelope::verify` succeeds on every authentic envelope.
  pub verify_of_IsAuthentic : (e : Envelope) → IsAuthentic e → verify e ≡ ok tt
  unfolding verify
  verify_of_IsAuthentic e h =
      ground (arith, str_beq_iff e.id (k.hex_encode (k.blake3 (j.to_vec e.msg))))

  -- With the keys of its own identity a node signs any message, and the envelope verifies, names the
  -- channel and the sender, and carries the message unchanged.
  pub sign-verify :
      (kf : KeypairFile) (pair : Bytes) (channel : Str) (msg : Message)
      → SignLaws k
      → OwnsKey kf pair
      → (e : Envelope) × (sign kf channel msg ≡ ok e)
        × (verify e ≡ ok tt)
        × (e.channel ≡ channel)
        × (e.from ≡ kf.public_key)
        × (e.msg ≡ msg)
  unfolding sign
  sign-verify kf pair channel msg laws own =
      (signed, rw own.decoded, verify_of_IsAuthentic signed authentic, refl, refl, refl)
    where
      payload : Bytes
      payload = signed_payload channel (j.to_vec msg)

      signed : Envelope
      signed = record {
        id = k.hex_encode (k.blake3 (j.to_vec msg));
        channel = channel;
        from = kf.public_key;
        from_alias = kf.alias;
        ts = msg.ts;
        sig = k.hex_encode (k.sign pair payload);
        msg = msg;
      }

      authentic : IsAuthentic signed
      authentic = record {
        key = k.public_half pair;
        signature = k.sign pair payload;
        key_of_sender = rw own.matching (laws.decode_encode (k.public_half pair));
        key_length = laws.length_public_half pair own.is_pair;
        key_ok = laws.public_half_ok pair own.is_pair;
        signature_of_envelope = laws.decode_encode (k.sign pair payload);
        signature_length = laws.length_sign pair payload;
        signed = laws.verifies_sign pair payload own.is_pair;
        same_time = refl;
        content_id = refl;
      }

  -- Two envelopes that verify under one id carry the same message.
  pub verify-same_id :
      (a b : Envelope)
      → HashLaws k
      → VecLaws j
      → verify a ≡ ok tt
      → verify b ≡ ok tt
      → a.id ≡ b.id
      → (a.msg ≡ b.msg) × (a.ts ≡ b.ts)
  verify-same_id a b hash vec va vb e =
      let fa = verify-IsAuthentic a va in
      let fb = verify-IsAuthentic b vb in
      let bytes = hash.hex-injective _ _ (sym fa.content_id ∙ e ∙ fb.content_id) in
      let same = vec.to_vec-injective a.msg b.msg (hash.blake3-injective _ _ bytes) in
      (same, fa.same_time ∙ ap (λ (m : Message). m.ts) same ∙ sym fb.same_time)

  -- `Envelope::verify` succeeds exactly on the envelopes whose sender is a public key of 32 bytes,
  -- whose signature is one of 64 bytes by that key over channel and message, and whose time stamp and
  -- id are those of the message.
  pub verify_iff : (e : Envelope) → (verify e ≡ ok tt) ↔ IsAuthentic e
  verify_iff e = (verify-IsAuthentic e, verify_of_IsAuthentic e)
