-- ===== src/Examples/Toy.antt =====
-- A toy version of the crates: hexadecimal and base64 texts are the bytes themselves, a hash is its
-- input, and a signature is a check sum over the public key and the payload.
use embernet.Prelude.{
  ℕ, zero, suc, Bytes, true, [], ◌∷◌, ◌++◌, some, ◌≡◌, refl, arith, ◌==◌, nat_eq, str_eq, beq_refl,
  nat_beq_iff, length, drop, ◌+◌, ◌%◌, ◌-◌,
}
use embernet.Crates.{Crates, SignLaws, HashLaws}

abbrev pub sum_bytes : Bytes → ℕ
sum_bytes [] = 0
sum_bytes (c ∷ s) = c + sum_bytes s

abbrev pub repeat : ℕ → ℕ → Bytes
repeat zero c = []
repeat (suc n) c = c ∷ repeat n c

abbrev pub toy_signature : Bytes → Bytes → Bytes
toy_signature key payload = repeat 64 (sum_bytes (key ++ payload) % 256)

instance abbrev pub toy : Crates
toy = record {
  hex_encode = λ b. b;
  hex_decode = λ s. some s;
  b64_encode = λ b. b;
  b64_decode = λ s. some s;
  blake3 = λ b. b;
  is_verifying_key = λ key. length key == 32;
  verifies = λ key sig payload. sig == toy_signature key payload;
  is_keypair = λ pair. length pair == 64;
  public_half = λ pair. drop 32 pair;
  sign = λ pair payload. toy_signature (drop 32 pair) payload;
}

length-drop : (n : ℕ) (s : Bytes) → length (drop n s) ≡ length s - n
length-drop zero s = omega arith
length-drop (suc n) [] = omega arith
length-drop (suc n) (c ∷ s) = omega (arith, length-drop n s)

half_length : (pair : Bytes) → (length pair == 64) ≡ true → length (drop 32 pair) ≡ 32
half_length pair h =
    let e = (nat_beq_iff (length pair) 64).0 h in omega (arith, length-drop 32 pair)

pub toy-SignLaws : SignLaws toy
toy-SignLaws = record {
  decode_encode = λ b. refl;
  length_sign = λ pair payload. refl;
  length_public_half = half_length;
  public_half_ok = λ pair h. (nat_beq_iff (length (drop 32 pair)) 32).1 (half_length pair h);
  verifies_sign = λ pair payload h. beq_refl (toy_signature (drop 32 pair) payload);
}

pub toy-HashLaws : HashLaws toy
toy-HashLaws = record { hex-injective = λ a b e. e; blake3-injective = λ a b e. e }
