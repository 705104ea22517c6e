-- ===== src/Examples/ModerationWire.antt =====
-- The toy serialiser at the structures of moderation, and events that a person signs.
use embernet.Prelude.{ℕ, Str, Option, ◌≡◌, refl, ◌⊎◌, inl, inr, codes}
use embernet.Crates.{ToVec}
use embernet.Ndjson.{Json}
use embernet.Moderation.Tombstones.{ModerationState}
use embernet.Moderation.{
  ModerationAction, tombstone, restore, ModerationEvent, ModerationEventPayload, signed_moderation,
}
use embernet.Examples.Codes.{
  Code, nat_code, pair_code, sum_code, via_code, list_code, option_code, str_code, code_vec,
  code_json,
}
use embernet.Examples.Toy.{toy_signature}
use embernet.Examples.People.{key_of, first}

abbrev pub ruling_from : ModerationAction → (Str × Option Str) ⊎ Str
ruling_from (tombstone t r) = inl (t, r)
ruling_from (restore t) = inr t

abbrev pub ruling_to : (Str × Option Str) ⊎ Str → ModerationAction
ruling_to (inl (t, r)) = tombstone t r
ruling_to (inr t) = restore t

pub ruling_back : (y : ModerationAction) → ruling_to (ruling_from y) ≡ y
ruling_back (tombstone t r) = refl
ruling_back (restore t) = refl

abbrev pub ruling_code : Code ModerationAction
ruling_code =
    via_code (sum_code (pair_code str_code (option_code str_code)) str_code) ruling_from ruling_to
      ruling_back

abbrev pub moderation_payload_code : Code ModerationEventPayload
moderation_payload_code =
    via_code
      (pair_code str_code (
        pair_code str_code
          (pair_code nat_code (pair_code (option_code str_code) (pair_code str_code ruling_code)))))
      (λ e. (e.channel, (e.actor, (e.ts, (e.previous, (e.policy_head, e.action))))))
      (λ p. record {
        channel = p.0;
        actor = p.1.0;
        ts = p.1.1.0;
        previous = p.1.1.1.0;
        policy_head = p.1.1.1.1.0;
        action = p.1.1.1.1.1;
      })
      (λ y. refl)

abbrev pub moderation_event_code : Code ModerationEvent
moderation_event_code =
    via_code (pair_code (pair_code str_code str_code) moderation_payload_code)
      (λ e. (
        (e.id, e.sig),
        record {
          channel = e.channel;
          actor = e.actor;
          ts = e.ts;
          previous = e.previous;
          policy_head = e.policy_head;
          action = e.action;
        },
      ))
      (λ p. record {
        id = p.0.0;
        channel = p.1.channel;
        actor = p.1.actor;
        ts = p.1.ts;
        previous = p.1.previous;
        policy_head = p.1.policy_head;
        action = p.1.action;
        sig = p.0.1;
      })
      (λ y. refl)

abbrev pub state_code : Code ModerationState
state_code =
    via_code (list_code (pair_code str_code (option_code str_code))) (λ s. s.tombstoned)
      (λ m. record { tombstoned = m }) (λ y. refl)

instance abbrev pub moderation_payload_vec : ToVec ModerationEventPayload
moderation_payload_vec = code_vec moderation_payload_code

instance abbrev pub moderation_event_json : Json ModerationEvent
moderation_event_json = code_json moderation_event_code

instance abbrev pub moderation_state_json : Json ModerationState
moderation_state_json = code_json state_code

-- An event of Alice, signed over the policy that she made.
abbrev pub ruling_by_alice : ℕ → Option Str → ModerationAction → ModerationEvent
ruling_by_alice ts previous action =
    let payload = moderation_payload_vec.to_vec (record {
      channel = codes "a";
      actor = key_of 1;
      ts = ts;
      previous = previous;
      policy_head = first.id;
      action = action;
    }) in
    record {
      id = payload;
      channel = codes "a";
      actor = key_of 1;
      ts = ts;
      previous = previous;
      policy_head = first.id;
      action = action;
      sig = toy_signature (key_of 1) (signed_moderation payload);
    }
