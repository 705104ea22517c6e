-- ===== src/Policy/Actions/Invariant.antt =====
-- What holds of every policy that a history of src/store.rs can reach.
use embernet.Prelude.{Str, some, ◌≡◌, ◌⊎◌, inl, inr, arith, str_eq}
use embernet.Fallible.{ok}
use embernet.Crates.{Crates}
use embernet.Policy.{
  moderator, writer, reader, ChannelPolicy, default_policy, PolicyAction, restrict, adopt, grant,
  revoke, transfer_owner, set_visibility, restricted,
}
use embernet.Policy.Actions.{validate_public_key, authorize_policy_change, apply_policy_action}
use embernet.Policy.Actions.Rights.{owner_of_is_owner}

-- A channel is as it was created, or it is restricted and has an owner.
abbrev pub IsOwned : ChannelPolicy → Type 0
IsOwned p = (p.mode ≡ restricted) × ((o : Str) × (p.owner ≡ some o))

abbrev pub IsSound : ChannelPolicy → Type 0
IsSound p = (p ≡ default_policy) ⊎ IsOwned p

module _ ⦃k : Crates⦄ where
  -- Whatever action succeeds on a sound policy, the policy after it is restricted and has an owner.
  pub apply-IsOwned :
      (p q : ChannelPolicy) (actor : Str) (a : PolicyAction)
      → IsSound p
      → apply_policy_action p actor a ≡ ok q
      → IsOwned q
  unfolding apply_policy_action authorize_policy_change validate_public_key
  apply-IsOwned p q actor (restrict o) s e = (ground arith, (o, ground arith))
  apply-IsOwned p q actor (adopt o) s e =
      (ground arith, (actor, ground (arith, owner_of_is_owner o actor)))
  apply-IsOwned p q actor (grant role o) (inl s) e = absurd (ground arith)
  apply-IsOwned p q actor (grant moderator o) (inr s) e = (ground arith, (s.1.0, ground arith))
  apply-IsOwned p q actor (grant writer o) (inr s) e = (ground arith, (s.1.0, ground arith))
  apply-IsOwned p q actor (grant reader o) (inr s) e = (ground arith, (s.1.0, ground arith))
  apply-IsOwned p q actor (revoke role o) (inl s) e = absurd (ground arith)
  apply-IsOwned p q actor (revoke moderator o) (inr s) e = (ground arith, (s.1.0, ground arith))
  apply-IsOwned p q actor (revoke writer o) (inr s) e = (ground arith, (s.1.0, ground arith))
  apply-IsOwned p q actor (revoke reader o) (inr s) e = (ground arith, (s.1.0, ground arith))
  apply-IsOwned p q actor (transfer_owner o) (inl s) e = absurd (ground arith)
  apply-IsOwned p q actor (transfer_owner o) (inr s) e = (ground arith, (o, ground arith))
  apply-IsOwned p q actor (set_visibility o) (inl s) e = absurd (ground arith)
  apply-IsOwned p q actor (set_visibility o) (inr s) e = (ground arith, (s.1.0, ground arith))
