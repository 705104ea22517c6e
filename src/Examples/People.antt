-- ===== src/Examples/People.antt =====
-- Two identities of the toy crates and what they post.
use embernet.Prelude.{ℕ, Bytes, Str, codes, [], ◌++◌, Option, none, refl}
use embernet.Proto.{KeypairFile, Message, Envelope, post, text, signed_payload, signing_key}
use embernet.Proto.Envelopes.{OwnsKey}
use embernet.Policy.{PolicyAction, restrict, PolicyEvent}
use embernet.Policy.History.{signed_policy}
use embernet.Examples.Toy.{toy, repeat, toy_signature}
use embernet.Examples.Wire.{message_vec, policy_payload_vec}

abbrev pub pair_of : ℕ → Bytes
pair_of n = repeat 32 0 ++ repeat 32 n

abbrev pub key_of : ℕ → Str
key_of n = repeat 32 n

abbrev pub person : ℕ → KeypairFile
person n = record { alias = none; public_key = key_of n; secret_key = pair_of n }

abbrev pub alice : KeypairFile
alice = person 1

abbrev pub bob : KeypairFile
bob = person 2

pub alice-OwnsKey : OwnsKey alice (pair_of 1)
unfolding signing_key
alice-OwnsKey = record { decoded = refl; is_pair = refl; matching = refl }

pub bob-OwnsKey : OwnsKey bob (pair_of 2)
unfolding signing_key
bob-OwnsKey = record { decoded = refl; is_pair = refl; matching = refl }

abbrev pub hello : Message
hello = record {
  ts = 5;
  msg_type = post;
  title = none;
  tags = [];
  refs = [];
  body = text (codes "hi");
}

abbrev pub greeting : Envelope
greeting = record {
  id = message_vec.to_vec hello;
  channel = codes "a";
  from = key_of 1;
  from_alias = none;
  ts = 5;
  sig = toy_signature (key_of 1) (signed_payload (codes "a") (message_vec.to_vec hello));
  msg = hello;
}

-- An event signed by person `n`, behind the event of the given id.
abbrev pub event_by : ℕ → Option Str → PolicyAction → PolicyEvent
event_by n previous action =
    let payload = policy_payload_vec.to_vec (record {
      channel = codes "a";
      actor = key_of n;
      ts = 7;
      previous = previous;
      action = action;
    }) in
    record {
      id = payload;
      channel = codes "a";
      actor = key_of n;
      ts = 7;
      previous = previous;
      action = action;
      sig = toy_signature (key_of n) (signed_policy payload);
    }

abbrev pub first : PolicyEvent
first = event_by 1 none (restrict (key_of 1))
