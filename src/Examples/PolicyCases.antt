-- ===== src/Examples/PolicyCases.antt =====
-- Policies: the theorems of Policy where Alice owns a channel and Bob moderates it.
use embernet.Prelude.{
  ℕ, Str, str_beq, codes, true, false, List, [], ◌∷◌, none, some, ◌≡◌, refl, ◌≢◌, take, contains,
  remove_all, Option, ap, sym, inr, sort, is_prefix, str_eq, arith,
}
use embernet.Fallible.{ok}
use embernet.Proto.{verify_bytes}
use embernet.Policy.{
  moderator, writer, restricted, ChannelPolicy, default_policy, grant, revoke, transfer_owner,
  PolicyEvent,
}
use embernet.Policy.Actions.{validate_public_key, authorize_policy_change, apply_policy_action}
use embernet.Policy.Actions.Rights.{apply-owner_only}
use embernet.Policy.Actions.Invariant.{IsOwned, apply-IsOwned}
use embernet.Policy.History.{check_policy_event, replay_policy, derive_policy}
use embernet.Policy.History.Chain.{replay-owner_silent}
use embernet.Policy.History.Prefix.{is_policy_prefix, derive-prefix}
use embernet.Examples.Codes.{code-VecLaws}
use embernet.Examples.Toy.{toy, toy-HashLaws}
use embernet.Examples.Wire.{policy_payload_vec, policy_payload_code}
use embernet.Examples.People.{key_of, event_by, first}

abbrev owned : ChannelPolicy
owned = record default_policy { mode = restricted; owner = some (key_of 1) }

abbrev moderated : ChannelPolicy
moderated = record owned { moderators = key_of 2 ∷ [] }

abbrev with_writer : ChannelPolicy
with_writer = record moderated { writers = key_of 3 ∷ [] }

abbrev first_byte : Option Str → ℕ
first_byte none = 0
first_byte (some []) = 0
first_byte (some (c ∷ s)) = c

-- Bob is not the owner.
bob_is_not_owner : moderated.owner ≢ some (key_of 2)
bob_is_not_owner e = absurd (omega (arith, ap first_byte e))

bob_adds_writer :
    apply_policy_action moderated (key_of 2) (grant writer (key_of 3)) ≡ ok with_writer
unfolding apply_policy_action authorize_policy_change validate_public_key contains sort str_beq
bob_adds_writer = refl

apply-owner_only_example :
    (with_writer.owner ≡ moderated.owner)
    × (with_writer.mode ≡ restricted)
    × (with_writer.visibility ≡ moderated.visibility)
    × (with_writer.moderators ≡ moderated.moderators)
    × (with_writer.version ≡ moderated.version)
apply-owner_only_example =
    apply-owner_only moderated with_writer (key_of 2) (grant writer (key_of 3)) refl
      bob_is_not_owner bob_adds_writer

bob_is_no_moderator : contains (key_of 2) owned.moderators ≡ false
unfolding contains
bob_is_no_moderator = refl

bob_removes_writer :
    apply_policy_action with_writer (key_of 2) (revoke writer (key_of 3)) ≡ ok moderated
unfolding apply_policy_action authorize_policy_change contains remove_all str_beq
bob_removes_writer = refl

abbrev bob_owns : ChannelPolicy
bob_owns = record owned { owner = some (key_of 2) }

alice_transfers : apply_policy_action moderated (key_of 1) (transfer_owner (key_of 2)) ≡ ok bob_owns
unfolding apply_policy_action validate_public_key remove_all str_beq
alice_transfers = refl

apply-IsOwned_example : IsOwned with_writer
apply-IsOwned_example =
    apply-IsOwned moderated with_writer (key_of 2) (grant writer (key_of 3))
      (inr (refl, (key_of 1, refl))) bob_adds_writer

abbrev second : PolicyEvent
second = event_by 1 (some first.id) (grant moderator (key_of 2))

abbrev third : PolicyEvent
third = event_by 2 (some second.id) (grant writer (key_of 3))

abbrev history : List PolicyEvent
history = first ∷ second ∷ third ∷ []

history_valid : derive_policy (codes "a") history ≡ ok with_writer
unfolding derive_policy replay_policy check_policy_event verify_bytes apply_policy_action
    authorize_policy_change validate_public_key contains sort str_beq
history_valid = refl

third_replays : replay_policy (codes "a") moderated (some second.id) (third ∷ []) ≡ ok with_writer
unfolding replay_policy check_policy_event verify_bytes apply_policy_action authorize_policy_change
    validate_public_key contains sort str_beq
third_replays = refl

bob_is_not_alice : key_of 2 ≢ key_of 1
bob_is_not_alice e = bob_is_not_owner (ap some (sym e))

replay-owner_silent_example :
    (with_writer.owner ≡ some (key_of 1))
    × (with_writer.mode ≡ restricted)
    × (with_writer.visibility ≡ moderated.visibility)
    × (with_writer.moderators ≡ moderated.moderators)
replay-owner_silent_example =
    replay-owner_silent (codes "a") (key_of 1) moderated with_writer (some second.id) (third ∷ [])
      refl refl (bob_is_not_alice, tt) third_replays

beginning_valid : derive_policy (codes "a") (first ∷ second ∷ []) ≡ ok moderated
unfolding derive_policy replay_policy check_policy_event verify_bytes apply_policy_action
    authorize_policy_change validate_public_key contains sort str_beq
beginning_valid = refl

beginning_is_prefix : is_policy_prefix (first ∷ second ∷ []) history ≡ true
unfolding is_policy_prefix is_prefix str_beq
beginning_is_prefix = refl

derive-prefix_example :
    (derive_policy (codes "a") (take 2 history) ≡ ok moderated)
    × (derive_policy (codes "a") (first ∷ second ∷ third ∷ []) ≡ ok with_writer)
derive-prefix_example =
    derive-prefix toy-HashLaws (code-VecLaws policy_payload_code) (codes "a") moderated with_writer
      (first ∷ second ∷ []) history beginning_valid history_valid beginning_is_prefix
