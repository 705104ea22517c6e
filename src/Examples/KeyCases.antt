-- ===== src/Examples/KeyCases.antt =====
-- Alice has a key of a private channel: she encrypts a message under it, and offers it to Bob.
use embernet.Prelude.{ℕ, Bytes, str_beq, codes, [], ◌∷◌, some, ◌≡◌, refl, List, All}
use embernet.Fallible.{Result, ok, err}
use embernet.Ndjson.{JsonLaws}
use embernet.Proto.{Message, Envelope, sign, signing_key, sign_bytes}
use embernet.Channel.{ChannelDir}
use embernet.Keyring.{ChannelKey, load_keys, find_key, current_channel_key}
use embernet.Encryption.Utf8.{is_utf8, utf8_from}
use embernet.Encryption.{message_aad, decode_key, seal, encrypt_message, decrypt_envelope}
use embernet.Encryption.RoundTrip.{encrypt-decrypt}
use embernet.KeyOffers.{
  KeyOffer, offer_aad, signed_offer, change_at, clamp, x25519_secret, x25519_public, offer_wrap_key,
  make_offer, make_offers, make_key_offers, accept_key_offers,
}
use embernet.KeyOffers.Accepting.{IsHonest}
use embernet.KeyOffers.Holding.{Holds}
use embernet.KeyOffers.Sharing.{HasRing, make-accept_key_offers}
use embernet.Examples.Toy.{toy, repeat, toy-SignLaws, toy-HashLaws}
use embernet.Examples.ToyCiphers.{toy_ciphers, toy-CipherLaws, toy-ExchangeLaws}
use embernet.Examples.Wire.{keyring_json, channel_key_code, message_vec}
use embernet.Examples.SyncWire.{offer_payload_vec}
use embernet.Examples.People.{pair_of, alice, bob, alice-OwnsKey, bob-OwnsKey, hello, greeting}
use embernet.Examples.Codes.{list_code, code-LineLaws}
use embernet.Examples.StoreCases.{new_dir}

abbrev secret : Bytes
secret = repeat 32 9

abbrev channel_key : ChannelKey
channel_key = record { id = secret; key = secret }

abbrev keys : List ChannelKey
keys = channel_key ∷ []

abbrev alice_dir : ChannelDir
alice_dir = record new_dir { keyring = some (keyring_json.to_vec keys) }

abbrev nonce : Bytes
nonce = repeat 24 3

abbrev message_or : Message → Result Message → Message
message_or m (ok m') = m'
message_or m (err e) = m

abbrev envelope_or : Envelope → Result Envelope → Envelope
envelope_or e (ok e') = e'
envelope_or e (err x) = e

abbrev sealed : Message
sealed = message_or hello (encrypt_message (codes "a") nonce hello alice_dir)

abbrev posted : Envelope
posted = envelope_or greeting (sign alice (codes "a") sealed)

alice_has_key : current_channel_key alice_dir ≡ ok channel_key
unfolding current_channel_key load_keys
alice_has_key = refl

alice_loads : load_keys alice_dir ≡ ok keys
unfolding load_keys
alice_loads = refl

message_made : encrypt_message (codes "a") nonce hello alice_dir ≡ ok sealed
unfolding encrypt_message seal decode_key current_channel_key load_keys message_aad
message_made = refl

sealed_signed : sign alice (codes "a") sealed ≡ ok posted
unfolding sign signing_key
sealed_signed = refl

encrypt-decrypt_example : decrypt_envelope posted alice_dir ≡ ok (record posted { msg = hello })
unfolding is_utf8 utf8_from find_key str_beq
encrypt-decrypt_example =
    encrypt-decrypt toy-CipherLaws (codes "a") nonce (codes "hi") channel_key channel_key keys hello
      sealed alice_dir alice_dir alice posted refl refl refl alice_has_key alice_loads refl refl
      message_made sealed_signed

abbrev offers_or : Result (List KeyOffer) → List KeyOffer
offers_or (ok offers) = offers
offers_or (err e) = []

abbrev nonces : ℕ → Bytes
nonces n = nonce

abbrev offers : List KeyOffer
offers = offers_or (make_key_offers (codes "a") alice bob.public_key nonces alice_dir)

offers_made : make_key_offers (codes "a") alice bob.public_key nonces alice_dir ≡ ok offers
unfolding make_key_offers make_offers make_offer load_keys decode_key offer_wrap_key x25519_secret
    x25519_public signing_key sign_bytes clamp change_at offer_aad signed_offer
offers_made = refl

keyring-JsonLaws : JsonLaws keyring_json
keyring-JsonLaws = record { read_back = (code-LineLaws (list_code channel_key_code)).read_back }

channel_key-IsHonest : IsHonest channel_key
unfolding decode_key
channel_key-IsHonest = record { raw = secret; decoded = refl; full = refl; named = refl }

make-accept_key_offers_example :
    (n : ℕ) × (d : ChannelDir) × (ring : List ChannelKey) × (accept_key_offers
        (codes "a")
        bob
        offers
        new_dir
      ≡ (ok n, d))
    × HasRing new_dir d ring
    × All (Holds ring) keys
unfolding load_keys
make-accept_key_offers_example =
    make-accept_key_offers (codes "a") alice bob (pair_of 1) (pair_of 2) nonces keys [] offers
      alice_dir new_dir toy-SignLaws toy-HashLaws toy-ExchangeLaws toy-CipherLaws keyring-JsonLaws
      alice-OwnsKey bob-OwnsKey (λ i. refl) alice_loads (channel_key-IsHonest, tt) offers_made refl
      refl tt

abbrev bob_dir : ChannelDir
bob_dir = (accept_key_offers (codes "a") bob offers new_dir).1
