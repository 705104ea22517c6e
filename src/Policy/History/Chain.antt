-- ===== src/Policy/History/Chain.antt =====
-- Replaying a chain of policy events of src/store.rs piece by piece.
use embernet.Prelude.{
  ℕ, Str, List, [], ◌∷◌, ◌++◌, Option, none, some, ◌≡◌, refl, ◌≢◌, inl, inr, arith, All, take, drop,
  take-append-drop, ◌⊎◌, sym, ◌∙◌,
}
use embernet.Fallible.{ok, Result-cases, ok-injective}
use embernet.Fallible.Checks.{◌>>=◌, ◌>>◌, bind-eq_ok}
use embernet.Crates.{Crates, ToVec}
use mathlib.Core.Option.{some-injective}
use embernet.Policy.Actions.Rights.{apply-owner_only}
use embernet.Policy.{restricted, ChannelPolicy, default_policy, PolicyEvent, PolicyEventPayload}
use embernet.Policy.Actions.{apply_policy_action}
use embernet.Policy.Actions.Invariant.{IsOwned, apply-IsOwned}
use embernet.Policy.History.{check_policy_event, replay_policy, derive_policy}

-- The id that the next event must name as its predecessor.
abbrev pub head_after : Option Str → List PolicyEvent → Option Str
head_after previous [] = previous
head_after previous (e ∷ events) = head_after (some e.id) events

module _ ⦃k : Crates⦄ ⦃j : ToVec PolicyEventPayload⦄ where
  pub replay-append :
      (chan : Str) (p : ChannelPolicy) (previous : Option Str) (a b : List PolicyEvent)
      → replay_policy chan p previous (a ++ b)
        ≡ (replay_policy chan p previous a >>= λ q. replay_policy chan q (head_after previous a) b)
  unfolding replay_policy
  replay-append chan p previous [] b = refl
  replay-append chan p previous (e ∷ a) b =
      elim (Result-cases (check_policy_event chan previous e)) [
        | inr (x, c) ↦ rw (c, ◌>>◌)
        | inl (u, c) ↦ elim (Result-cases (apply_policy_action p e.actor e.action)) [
          | inr (x, d) ↦ rw (c, d, ◌>>◌)
          | inl (q, d) ↦ rw (c, d) (replay-append chan q (some e.id) a b)
        ]
      ]

  -- Every beginning of a valid history is valid, and from its policy the rest of the history leads to
  -- the policy of the whole.
  pub derive-take :
      (chan : Str) (events : List PolicyEvent) (n : ℕ) (p : ChannelPolicy)
      → derive_policy chan events ≡ ok p
      → (q : ChannelPolicy) × (derive_policy chan (take n events) ≡ ok q)
        × (replay_policy chan q (head_after none (take n events)) (drop n events) ≡ ok p)
  unfolding derive_policy
  derive-take chan events n p h = bind-eq_ok (derive_policy chan (take n events)) _ (
      rw
        (
          ← replay-append chan default_policy none (take n events) (drop n events),
          take-append-drop n events,
        )
        h)

  -- The steps of a replay that succeeds.
  pub record Replays (chan : Str) (p q : ChannelPolicy) (previous : Option Str) (e : PolicyEvent)
      (events : List PolicyEvent) : Type 0 where
    pub next : ChannelPolicy
    pub checked : check_policy_event chan previous e ≡ ok tt
    pub applied : apply_policy_action p e.actor e.action ≡ ok next
    pub rest : replay_policy chan next (some e.id) events ≡ ok q

  pub replay-Replays :
      (chan : Str) (p q : ChannelPolicy) (previous : Option Str) (e : PolicyEvent)
      (events : List PolicyEvent)
      → replay_policy chan p previous (e ∷ events) ≡ ok q
      → Replays chan p q previous e events
  unfolding replay_policy
  replay-Replays chan p q previous e events h =
      let (u, c, h') = bind-eq_ok (check_policy_event chan previous e) _ h in
      let (next, d, rest) = bind-eq_ok (apply_policy_action p e.actor e.action) _ h' in
      record { next = next; checked = c; applied = d; rest = rest }

  pub replay_of_Replays :
      (chan : Str) (p q : ChannelPolicy) (previous : Option Str) (e : PolicyEvent)
      (events : List PolicyEvent)
      → Replays chan p q previous e events
      → replay_policy chan p previous (e ∷ events) ≡ ok q
  unfolding replay_policy
  replay_of_Replays chan p q previous e events r = rw (r.checked, r.applied) r.rest

  replay-IsOwned :
      (chan : Str) (p q : ChannelPolicy) (previous : Option Str) (events : List PolicyEvent)
      → IsOwned p
      → replay_policy chan p previous events ≡ ok q
      → IsOwned q
  replay-IsOwned chan p q previous [] s h = unfold replay_policy in rw (ok-injective p q h) at s
  replay-IsOwned chan p q previous (e ∷ events) s h =
      let r = replay-Replays chan p q previous e events h in
      replay-IsOwned chan r.next q (some e.id) events
        (apply-IsOwned p r.next e.actor e.action (inr s) r.applied) r.rest

  -- The empty history gives the open default policy; every other valid history gives a policy that
  -- is restricted and has an owner.
  pub derive-IsOwned :
      (chan : Str) (events : List PolicyEvent) (q : ChannelPolicy)
      → derive_policy chan events ≡ ok q
      → ((events ≡ []) × (q ≡ default_policy)) ⊎ IsOwned q
  unfolding derive_policy
  derive-IsOwned chan [] q h =
      unfold replay_policy in inl (refl, sym (ok-injective default_policy q h))
  derive-IsOwned chan (e ∷ events) q h =
      let r = replay-Replays chan default_policy q none e events h in
      inr (
        replay-IsOwned chan r.next q (some e.id) events
          (apply-IsOwned default_policy r.next e.actor e.action (inl refl) r.applied) r.rest)

  -- While the owner signs nothing, the owner, the moderators, the mode and the visibility of a
  -- restricted channel stay as they are, whatever others add to the history.
  pub replay-owner_silent :
      (chan owner : Str) (p q : ChannelPolicy) (previous : Option Str) (events : List PolicyEvent)
      → p.mode ≡ restricted
      → p.owner ≡ some owner
      → All (λ (e : PolicyEvent). e.actor ≢ owner) events
      → replay_policy chan p previous events ≡ ok q
      → (q.owner ≡ some owner)
        × (q.mode ≡ restricted)
        × (q.visibility ≡ p.visibility)
        × (q.moderators ≡ p.moderators)
  replay-owner_silent chan owner p q previous [] m o s h =
      unfold replay_policy in ground (arith, ok-injective p q h)
  replay-owner_silent chan owner p q previous (e ∷ events) m o s h =
      let r = replay-Replays chan p q previous e events h in
      let step =
        apply-owner_only p r.next e.actor e.action m (λ x. s.0 (some-injective _ _ (sym x ∙ o)))
          r.applied in
      let rest =
        replay-owner_silent chan owner r.next q (some e.id) events step.1 (step.0 ∙ o) s.1 r.rest in
      (rest.0, rest.1, rest.2 ∙ step.2, rest.3 ∙ step.3)
