-- ===== src/Ciphers.antt =====
-- What the program takes from the crates chacha20poly1305, curve25519-dalek, x25519-dalek and sha2.
use embernet.Prelude.{Bytes, Bool, Option, some, ◌≡◌}
use embernet.Crates.{Crates}

pub record Ciphers : Type 0 where
  -- XChaCha20-Poly1305 at a key, a nonce, the associated data and a text.
  pub encrypt : (key nonce aad message : Bytes) → Option Bytes
  pub decrypt : (key nonce aad ciphertext : Bytes) → Option Bytes
  -- `SigningKey::to_bytes` of a key pair.
  pub seed_of : (pair : Bytes) → Bytes
  pub sha512 : Bytes → Bytes
  -- An Ed25519 public key as a point of Curve25519, where it is one.
  pub to_montgomery : Bytes → Option Bytes
  pub diffie_hellman : (secret other : Bytes) → Bytes
  pub was_contributory : Bytes → Bool

-- What is encrypted is decrypted under the same key, nonce and associated data; base64 is read back.
pub record CipherLaws (k : Crates) (c : Ciphers) : Type 0 where
  pub decrypt_encrypt :
      (key nonce aad message ciphertext : Bytes)
      → c.encrypt key nonce aad message ≡ some ciphertext
      → c.decrypt key nonce aad ciphertext ≡ some message
  pub b64_read_back : (b : Bytes) → k.b64_decode (k.b64_encode b) ≡ some b
