-- ===== src/Proto.antt =====
-- src/proto.rs: keys, messages and signed envelopes. The private key is kept as the text of the
-- identity file; files and permissions of the identity are not modelled.
pub mod Envelopes
pub mod Payloads
use embernet.Prelude.{
  ℕ, Bytes, Str, List, ◌∷◌, ◌++◌, Option, none, some, ◌==◌, nat_eq, str_eq, length,
}
use embernet.Fallible.{
  Result, ok, ensure, context, bad_hex, bad_base64, bad_public_key, bad_signature,
  bad_verifying_key, signature_failed, bad_key_bytes, bad_keypair, timestamp_mismatch, id_mismatch,
}
use embernet.Fallible.Checks.{◌>>=◌, ◌>>◌}
use embernet.Crates.{Crates, ToVec}

pub record KeypairFile : Type 0 where
  pub alias : Option Str
  pub public_key : Str
  pub secret_key : Str

pub data MsgType : Type 0 where
  post reply vote moderate : MsgType

pub data Body : Type 0 where
  text : Str → Body
  encrypted : Str → Str → Str → Body

-- Timestamps are `i64` as bit patterns below 2 ^ 64.
pub record Message : Type 0 where
  pub ts : ℕ
  pub msg_type : MsgType
  pub title : Option Str
  pub tags : List Str
  pub refs : List Str
  pub body : Body

pub record Envelope : Type 0 where
  pub id : Str
  pub channel : Str
  pub from : Str
  pub from_alias : Option Str
  pub ts : ℕ
  pub sig : Str
  pub msg : Message

unfoldable pub new_text : ℕ → Option Str → List Str → Str → List Str → Message
new_text now title tags content refs = record {
  ts = now;
  msg_type = post;
  title = title;
  tags = tags;
  refs = refs;
  body = text content;
}

unfoldable pub body_text : Envelope → Option Str
body_text e = elim e.msg.body [ text t ↦ some t | encrypted i n c ↦ none ]

-- What the author signs.
abbrev pub signed_payload : Str → Bytes → Bytes
signed_payload channel msg_bytes = channel ++ b'\n' ∷ msg_bytes

module _ ⦃k : Crates⦄ where
  unfoldable pub signing_key : KeypairFile → Result Bytes
  signing_key kf = do
    bytes ← context (k.b64_decode kf.secret_key) bad_base64
    ensure (length bytes == 64) bad_key_bytes
    ensure (k.is_keypair bytes) bad_keypair
    ok bytes

  unfoldable pub sign_bytes : KeypairFile → Bytes → Result Str
  sign_bytes kf payload = do pair ← signing_key kf; ok (k.hex_encode (k.sign pair payload))

  unfoldable pub verify_bytes : Str → Str → Bytes → Result (Unit {0})
  verify_bytes public_key signature payload = do
    pk ← context (k.hex_decode public_key) bad_hex
    ensure (length pk == 32) bad_public_key
    sig ← context (k.hex_decode signature) bad_hex
    ensure (length sig == 64) bad_signature
    ensure (k.is_verifying_key pk) bad_verifying_key
    ensure (k.verifies pk sig payload) signature_failed

  module _ ⦃j : ToVec Message⦄ where
    unfoldable pub sign : KeypairFile → Str → Message → Result Envelope
    sign kf channel msg = do
      let msg_bytes = j.to_vec msg
      pair ← signing_key kf
      ok (record {
        id = k.hex_encode (k.blake3 msg_bytes);
        channel = channel;
        from = kf.public_key;
        from_alias = kf.alias;
        ts = msg.ts;
        sig = k.hex_encode (k.sign pair (signed_payload channel msg_bytes));
        msg = msg;
      })

    unfoldable pub verify : Envelope → Result (Unit {0})
    verify e = do
      ensure (e.ts == e.msg.ts) timestamp_mismatch
      let msg_bytes = j.to_vec e.msg
      pk ← context (k.hex_decode e.from) bad_hex
      ensure (length pk == 32) bad_public_key
      ensure (k.is_verifying_key pk) bad_verifying_key
      sig ← context (k.hex_decode e.sig) bad_hex
      ensure (length sig == 64) bad_signature
      ensure (k.verifies pk sig (signed_payload e.channel msg_bytes)) signature_failed
      ensure (e.id == k.hex_encode (k.blake3 msg_bytes)) id_mismatch
