-- ===== src/Moderation/Extension.antt =====
-- What later policy events change in the moderation of src/store.rs: nothing.
use embernet.Prelude.{
  ℕ, suc, Str, List, [], ◌∷◌, ◌++◌, take, Option, none, some, ◌==◌, str_eq, ◌≡◌, refl, ap, arith,
  Option-cases, Bool-cases, inl, inr,
}
use mathlib.Core.Option.{some-injective}
use embernet.Fallible.{ok}
use embernet.Crates.{Crates, ToVec}
use embernet.Policy.{ChannelPolicy, PolicyEvent, PolicyEventPayload}
use embernet.Moderation.Tombstones.{ModerationState}
use embernet.Moderation.{
  ModerationEvent, ModerationEventPayload, position, policy_at, check_moderation_event,
  replay_moderation, derive_moderation,
}
use embernet.Moderation.Replay.{replay-Moderates, replay_of_Moderates, check-IsAuthorized}

position-append :
    (head : Str) (a b : List PolicyEvent) (n : ℕ)
    → position head a ≡ some n
    → (position head (a ++ b) ≡ some n) × (take (suc n) (a ++ b) ≡ take (suc n) a)
unfolding position
position-append head [] b n h = absurd cc
position-append head (e ∷ a) b n h = elim (Option-cases (position head a)) [
  | inl x ↦ ground (arith, x)
  | inr (p, x) ↦
      let (found, same) = position-append head a b p x in
      elim (Bool-cases (e.id == head)) [
        | inl y ↦ let first : 0 ≡ n = some-injective _ _ (rw y at h) in rw (y, ← first) (refl, refl)
        | inr y ↦
            let next : suc p ≡ n = some-injective _ _ (rw (y, x) at h) in
            rw (y, found, ← next) (refl, ap (◌∷◌ e) same)
      ]
]

module _ ⦃k : Crates⦄ ⦃j : ToVec PolicyEventPayload⦄ (chan : Str) where
  policy_at-append :
      (policies more : List PolicyEvent) (head : Str) (p : ChannelPolicy)
      → policy_at chan policies head ≡ ok p
      → policy_at chan (policies ++ more) head ≡ ok p
  unfolding policy_at
  policy_at-append policies more head p h = elim (Option-cases (position head policies)) [
    | inl x ↦ absurd (cc (rw x at h))
    | inr (n, x) ↦
        let (found, same) = position-append head policies more n x in rw (found, same) (rw x at h)
  ]

module _ ⦃k : Crates⦄ ⦃m : ToVec ModerationEventPayload⦄ ⦃j : ToVec PolicyEventPayload⦄
    (chan : Str) where
  check-append :
      (policies more : List PolicyEvent) (previous : Option Str) (e : ModerationEvent)
      → check_moderation_event chan policies previous e ≡ ok tt
      → check_moderation_event chan (policies ++ more) previous e ≡ ok tt
  unfolding check_moderation_event
  check-append policies more previous e h =
      let a = check-IsAuthorized chan policies previous e h in
      rw (policy_at-append chan policies more e.policy_head a.policy a.in_force)
        (rw a.in_force at h)

  replay-append_policies :
      (policies more : List PolicyEvent) (s t : ModerationState) (previous : Option Str)
      (events : List ModerationEvent)
      → replay_moderation chan policies s previous events ≡ ok t
      → replay_moderation chan (policies ++ more) s previous events ≡ ok t
  replay-append_policies policies more s t previous [] h = unfold replay_moderation in h
  replay-append_policies policies more s t previous (e ∷ events) h =
      let r = replay-Moderates chan policies s t previous e events h in
      replay_of_Moderates chan (policies ++ more) s t previous e events (record {
        next = r.next;
        checked = check-append policies more previous e r.checked;
        applied = r.applied;
        rest = replay-append_policies policies more r.next t (some e.id) events r.rest;
      })

  -- A moderation history that is valid under a policy history stays valid, and says the same of every
  -- message, however the policy history is extended: not even the removal of a moderator undoes what
  -- the moderator signed under an earlier policy.
  pub derive_moderation-extension :
      (policies more : List PolicyEvent) (events : List ModerationEvent) (s : ModerationState)
      → derive_moderation chan policies events ≡ ok s
      → derive_moderation chan (policies ++ more) events ≡ ok s
  unfolding derive_moderation
  derive_moderation-extension policies more events s h =
      replay-append_policies policies more _ s none events h
