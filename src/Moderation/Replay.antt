-- ===== src/Moderation/Replay.antt =====
-- Replaying a chain of moderation events of src/store.rs, and who signed its events.
use embernet.Prelude.{
  Str, true, List, [], ◌∷◌, Option, none, some, ◌≡◌, ◌==◌, str_eq, option_eq, All, ◌&&◌,
}
use embernet.Fallible.{
  ok, ensure, true_of_ensure, broken_moderation_chain, not_a_moderator, bad_moderation_id,
}
use embernet.Fallible.Checks.{bind-eq_ok}
use embernet.Crates.{Crates, ToVec}
use embernet.Proto.{verify_bytes}
use embernet.Policy.{ChannelPolicy, PolicyEvent, PolicyEventPayload}
use embernet.Moderation.Tombstones.{ModerationState}
use embernet.Moderation.{
  ModerationEvent, ModerationEventPayload, moderation_payload, signed_moderation, moderation_id,
  may_moderate, policy_at, apply_moderation, check_moderation_event, replay_moderation,
  derive_moderation,
}

module _ ⦃k : Crates⦄ ⦃m : ToVec ModerationEventPayload⦄ ⦃j : ToVec PolicyEventPayload⦄ (chan : Str)
    (policies : List PolicyEvent) where
  -- The steps of a replay that succeeds.
  pub record Moderates (s t : ModerationState) (previous : Option Str) (e : ModerationEvent)
      (events : List ModerationEvent) : Type 0 where
    pub next : ModerationState
    pub checked : check_moderation_event chan policies previous e ≡ ok tt
    pub applied : apply_moderation s e.action ≡ ok next
    pub rest : replay_moderation chan policies next (some e.id) events ≡ ok t

  pub replay-Moderates :
      (s t : ModerationState) (previous : Option Str) (e : ModerationEvent)
      (events : List ModerationEvent)
      → replay_moderation chan policies s previous (e ∷ events) ≡ ok t
      → Moderates s t previous e events
  unfolding replay_moderation
  replay-Moderates s t previous e events h =
      let (u, c, h') = bind-eq_ok (check_moderation_event chan policies previous e) _ h in
      let (next, d, rest) = bind-eq_ok (apply_moderation s e.action) _ h' in
      record { next = next; checked = c; applied = d; rest = rest }

  pub replay_of_Moderates :
      (s t : ModerationState) (previous : Option Str) (e : ModerationEvent)
      (events : List ModerationEvent)
      → Moderates s t previous e events
      → replay_moderation chan policies s previous (e ∷ events) ≡ ok t
  unfolding replay_moderation
  replay_of_Moderates s t previous e events r = rw (r.checked, r.applied) r.rest

  -- An event is signed by an owner or a moderator of the policy that it names.
  pub record IsAuthorized (e : ModerationEvent) : Type 0 where
    pub policy : ChannelPolicy
    pub in_force : policy_at chan policies e.policy_head ≡ ok policy
    pub allowed : may_moderate policy e.actor ≡ true
    pub id_ok : (e.id == moderation_id e) ≡ true
    pub signed :
        verify_bytes e.actor e.sig (signed_moderation (m.to_vec (moderation_payload e))) ≡ ok tt

  pub check-IsAuthorized :
      (previous : Option Str) (e : ModerationEvent)
      → check_moderation_event chan policies previous e ≡ ok tt
      → IsAuthorized e
  unfolding check_moderation_event
  check-IsAuthorized previous e h =
      let (_, _, h₁) =
        bind-eq_ok
          (ensure ((e.channel == chan) && (e.previous == previous)) broken_moderation_chain) _ h in
      let (policy, found, h₂) = bind-eq_ok (policy_at chan policies e.policy_head) _ h₁ in
      let (_, allowed, h₃) =
        bind-eq_ok (ensure (may_moderate policy e.actor) not_a_moderator) _ h₂ in
      let (_, same, signed) =
        bind-eq_ok (ensure (e.id == moderation_id e) bad_moderation_id) _ h₃ in
      record {
        policy = policy;
        in_force = found;
        allowed = true_of_ensure (may_moderate policy e.actor) not_a_moderator allowed;
        id_ok = true_of_ensure (e.id == moderation_id e) bad_moderation_id same;
        signed = signed;
      }

  replay-IsAuthorized :
      (s t : ModerationState) (previous : Option Str) (events : List ModerationEvent)
      → replay_moderation chan policies s previous events ≡ ok t
      → All IsAuthorized events
  replay-IsAuthorized s t previous [] h = tt
  replay-IsAuthorized s t previous (e ∷ events) h =
      let r = replay-Moderates s t previous e events h in
      (
        check-IsAuthorized previous e r.checked,
        replay-IsAuthorized r.next t (some e.id) events r.rest,
      )

  -- Every event of a valid moderation history carries the signature of an actor who was the owner or
  -- a moderator under the policy that the history of policies had reached at the event's policy head.
  pub derive_moderation-IsAuthorized :
      (events : List ModerationEvent) (s : ModerationState)
      → derive_moderation chan policies events ≡ ok s
      → All IsAuthorized events
  unfolding derive_moderation
  derive_moderation-IsAuthorized events s h = replay-IsAuthorized _ s none events h
