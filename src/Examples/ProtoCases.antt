-- ===== src/Examples/ProtoCases.antt =====
-- Envelopes: the theorems of Proto at a greeting that Alice signs.
use embernet.Prelude.{str_beq, codes, true, ◌≡◌, refl, ◌↔◌}
use embernet.Fallible.{ok}
use embernet.Util.{
  allowed, all_allowed, starts_with_slash, ends_with_slash, has_double_slash, valid_channel,
}
use embernet.Proto.{Envelope, sign, verify}
use embernet.Proto.Envelopes.{IsAuthentic, verify_iff, sign-verify}
use embernet.Examples.Toy.{toy, toy-SignLaws}
use embernet.Examples.Wire.{message_vec}
use embernet.Examples.People.{alice, alice-OwnsKey, pair_of, hello, greeting}

greeting_verifies : verify greeting ≡ ok tt
unfolding verify str_beq
greeting_verifies = refl

verify_iff_example : (verify greeting ≡ ok tt) ↔ IsAuthentic greeting
verify_iff_example = verify_iff greeting

sign-verify_example :
    (e : Envelope) × (sign alice (codes "a") hello ≡ ok e)
    × (verify e ≡ ok tt)
    × (e.channel ≡ codes "a")
    × (e.from ≡ alice.public_key)
    × (e.msg ≡ hello)
sign-verify_example = sign-verify alice (pair_of 1) (codes "a") hello toy-SignLaws alice-OwnsKey

one_letter_valid : valid_channel (codes "a") ≡ true
unfolding valid_channel all_allowed allowed starts_with_slash ends_with_slash has_double_slash
one_letter_valid = refl
