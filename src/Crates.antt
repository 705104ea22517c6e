-- ===== src/Crates.antt =====
-- What the program takes from the crates hex, base64, blake3, ed25519-dalek and serde_json.
use embernet.Prelude.{Bytes, Str, Bool, true, Option, some, ◌≡◌, length}

pub record Crates : Type 0 where
  pub hex_encode : Bytes → Str
  pub hex_decode : Str → Option Bytes
  pub b64_encode : Bytes → Str
  pub b64_decode : Str → Option Bytes
  pub blake3 : Bytes → Bytes
  -- `VerifyingKey::from_bytes` takes the bytes.
  pub is_verifying_key : Bytes → Bool
  -- `verify` of a key, a signature and a payload.
  pub verifies : Bytes → Bytes → Bytes → Bool
  -- `SigningKey::from_keypair_bytes` takes the bytes; they hold the public key too.
  pub is_keypair : Bytes → Bool
  pub public_half : Bytes → Bytes
  pub sign : Bytes → Bytes → Bytes

-- `serde_json::to_vec`, which does not fail on the program's structures.
pub record ToVec (A : Type 0) : Type 0 where
  pub to_vec : A → Bytes

-- The documented behaviour of the crates that signing and verifying rest on.
pub record SignLaws (k : Crates) : Type 0 where
  pub decode_encode : (b : Bytes) → k.hex_decode (k.hex_encode b) ≡ some b
  pub length_sign : (pair payload : Bytes) → length (k.sign pair payload) ≡ 64
  pub length_public_half :
      (pair : Bytes) → k.is_keypair pair ≡ true → length (k.public_half pair) ≡ 32
  pub public_half_ok :
      (pair : Bytes) → k.is_keypair pair ≡ true → k.is_verifying_key (k.public_half pair) ≡ true
  pub verifies_sign :
      (pair payload : Bytes)
      → k.is_keypair pair ≡ true
      → k.verifies (k.public_half pair) (k.sign pair payload) payload ≡ true

-- Hex digits determine the bytes, and no two payloads of the program collide under BLAKE3.
pub record HashLaws (k : Crates) : Type 0 where
  pub hex-injective : (a b : Bytes) → k.hex_encode a ≡ k.hex_encode b → a ≡ b
  pub blake3-injective : (a b : Bytes) → k.blake3 a ≡ k.blake3 b → a ≡ b

pub record VecLaws {A : Type 0} (j : ToVec A) : Type 0 where
  pub to_vec-injective : (a b : A) → j.to_vec a ≡ j.to_vec b → a ≡ b
