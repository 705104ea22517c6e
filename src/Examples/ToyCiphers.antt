-- ===== src/Examples/ToyCiphers.antt =====
-- A toy version of the ciphers: a key stands in front of what is encrypted under it, a point is the
-- public key itself, and a shared secret adds the two scalars byte by byte.
use embernet.Prelude.{
  Bytes, not, [], ◌∷◌, ◌++◌, none, some, length, take, drop, take_front, drop_front, ◌+◌, ◌==◌,
  nat_eq, str_eq, beq_refl, is_empty, if◌then◌else◌, ◌≡◌, refl, ap₂, subst, arith,
}
use mathlib.Core.Option.{some-injective}
use embernet.Ciphers.{Ciphers, CipherLaws}
use embernet.KeyOffers.{clamp}
use embernet.KeyOffers.Sealing.{ExchangeLaws}
use embernet.Examples.Toy.{toy}

abbrev added : Bytes → Bytes → Bytes
added [] t = []
added (a ∷ s) [] = []
added (a ∷ s) (b ∷ t) = (a + b) ∷ added s t

added_comm : (s t : Bytes) → added s t ≡ added t s
added_comm [] [] = refl
added_comm [] (b ∷ t) = refl
added_comm (a ∷ s) [] = refl
added_comm (a ∷ s) (b ∷ t) = ap₂ ◌∷◌ (omega arith) (added_comm s t)

abbrev scalar : Bytes → Bytes
scalar s = clamp (take 32 s)

instance abbrev pub toy_ciphers : Ciphers
toy_ciphers = record {
  encrypt = λ key nonce aad message. some (key ++ message);
  decrypt = λ key nonce aad ciphertext.
      if take (length key) ciphertext == key then some (drop (length key) ciphertext) else none;
  seed_of = λ pair. drop 32 pair;
  sha512 = λ s. s;
  to_montgomery = λ key. some key;
  diffie_hellman = λ secret other. added secret (scalar other);
  was_contributory = λ shared. not (is_empty shared);
}

opened :
    (key nonce aad message : Bytes)
    → toy_ciphers.decrypt key nonce aad (key ++ message) ≡ some message
opened key nonce aad message =
    rw
      (
        take_front (length key) key message refl,
        drop_front (length key) key message refl,
        beq_refl key,
      )
      refl

pub toy-CipherLaws : CipherLaws toy toy_ciphers
toy-CipherLaws = record {
  decrypt_encrypt = λ key nonce aad message ciphertext e.
      subst (λ t. toy_ciphers.decrypt key nonce aad t ≡ some message) (some-injective _ _ e)
        (opened key nonce aad message);
  b64_read_back = λ b. refl;
}

pub toy-ExchangeLaws : ExchangeLaws toy toy_ciphers
toy-ExchangeLaws = record {
  point_of = λ pair good. (drop 32 pair, refl);
  one_secret = λ a b x y good_a good_b at_a at_b.
      rw (← some-injective _ _ at_a, ← some-injective _ _ at_b)
        (added_comm (scalar (drop 32 a)) (scalar (drop 32 b)));
}
