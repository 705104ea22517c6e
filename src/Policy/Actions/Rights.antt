-- ===== src/Policy/Actions/Rights.antt =====
-- Who can change what by an action of src/store.rs, and what each action does to the roles.
use embernet.Prelude.{
  Str, true, false, List, [], ◌∷◌, ◌++◌, some, ◌==◌, nat_eq, str_eq, option_eq, contains,
  if◌then◌else◌, ◌≡◌, refl, ◌≢◌, arith, str_beq_iff, option_beq_iff, contains-sort,
  contains-remove_all,
}
use embernet.Fallible.{ok}
use embernet.Crates.{Crates}
use embernet.Policy.{
  PolicyRole, moderator, writer, reader, ChannelPolicy, PolicyAction, restrict, adopt, grant,
  revoke, transfer_owner, set_visibility, restricted, is_owner, members,
}
use embernet.Policy.Actions.{
  validate_public_key, authorize_policy_change, add_member, apply_policy_action,
}

-- `is_owner` reads the owner by an equality test.
pub not-is_owner : (p : ChannelPolicy) (key : Str) → p.owner ≢ some key → is_owner p key ≡ false
not-is_owner p key h = ground (arith, option_beq_iff p.owner (some key))

pub owner_of_is_owner : (p : ChannelPolicy) (key : Str) → is_owner p key ≡ true → p.owner ≡ some key
owner_of_is_owner p key h = (option_beq_iff p.owner (some key)).0 h

module _ ⦃k : Crates⦄ where
  -- Under a restricted policy nobody but the owner changes the owner, the mode, the visibility, the
  -- moderators or the version, whatever the action.
  pub apply-owner_only :
      (p q : ChannelPolicy) (actor : Str) (a : PolicyAction)
      → p.mode ≡ restricted
      → p.owner ≢ some actor
      → apply_policy_action p actor a ≡ ok q
      → (q.owner ≡ p.owner)
        × (q.mode ≡ restricted)
        × (q.visibility ≡ p.visibility)
        × (q.moderators ≡ p.moderators)
        × (q.version ≡ p.version)
  unfolding apply_policy_action authorize_policy_change validate_public_key
  apply-owner_only p q actor (restrict o) m h e = ground (arith, not-is_owner p actor h)
  apply-owner_only p q actor (adopt o) m h e = ground (arith, not-is_owner p actor h)
  apply-owner_only p q actor (grant moderator o) m h e = ground (arith, not-is_owner p actor h)
  apply-owner_only p q actor (grant writer o) m h e = ground (arith, not-is_owner p actor h)
  apply-owner_only p q actor (grant reader o) m h e = ground (arith, not-is_owner p actor h)
  apply-owner_only p q actor (revoke moderator o) m h e = ground (arith, not-is_owner p actor h)
  apply-owner_only p q actor (revoke writer o) m h e = ground (arith, not-is_owner p actor h)
  apply-owner_only p q actor (revoke reader o) m h e = ground (arith, not-is_owner p actor h)
  apply-owner_only p q actor (transfer_owner o) m h e = ground (arith, not-is_owner p actor h)
  apply-owner_only p q actor (set_visibility o) m h e = ground (arith, not-is_owner p actor h)

  -- Under a restricted policy the action of one who is neither the owner nor a moderator fails.
  pub apply-outsider :
      (p : ChannelPolicy) (actor : Str) (a : PolicyAction)
      → p.mode ≡ restricted
      → p.owner ≢ some actor
      → contains actor p.moderators ≡ false
      → (q : ChannelPolicy) → apply_policy_action p actor a ≢ ok q
  unfolding apply_policy_action authorize_policy_change validate_public_key
  apply-outsider p actor (restrict o) m h c q e = ground (arith, not-is_owner p actor h)
  apply-outsider p actor (adopt o) m h c q e = ground (arith, not-is_owner p actor h)
  apply-outsider p actor (grant moderator o) m h c q e = ground (arith, not-is_owner p actor h)
  apply-outsider p actor (grant writer o) m h c q e = ground (arith, not-is_owner p actor h)
  apply-outsider p actor (grant reader o) m h c q e = ground (arith, not-is_owner p actor h)
  apply-outsider p actor (revoke moderator o) m h c q e = ground (arith, not-is_owner p actor h)
  apply-outsider p actor (revoke writer o) m h c q e = ground (arith, not-is_owner p actor h)
  apply-outsider p actor (revoke reader o) m h c q e = ground (arith, not-is_owner p actor h)
  apply-outsider p actor (transfer_owner o) m h c q e = ground (arith, not-is_owner p actor h)
  apply-outsider p actor (set_visibility o) m h c q e = ground (arith, not-is_owner p actor h)

  contains-append_one :
      (key j : Str) (l : List Str)
      → contains j (l ++ key ∷ []) ≡ (if key == j then true else contains j l)
  unfolding contains
  contains-append_one key j [] = refl
  contains-append_one key j (x ∷ l) = ground (arith, contains-append_one key j l)

  contains-add_member :
      (key j : Str) (l : List Str)
      → contains j (add_member key l) ≡ (if key == j then true else contains j l)
  contains-add_member key j l =
      ground
        (arith, contains-sort j (l ++ key ∷ []), contains-append_one key j l, str_beq_iff key j)

  -- After a grant the key has the role, and nobody else gains or loses it.
  pub apply-grant_members :
      (p q : ChannelPolicy) (actor key j : Str) (role : PolicyRole)
      → apply_policy_action p actor (grant role key) ≡ ok q
      → contains j (members role q) ≡ (if key == j then true else contains j (members role p))
  unfolding apply_policy_action
  apply-grant_members p q actor key j moderator e =
      ground (arith, contains-add_member key j p.moderators)
  apply-grant_members p q actor key j writer e = ground (arith, contains-add_member key j p.writers)
  apply-grant_members p q actor key j reader e = ground (arith, contains-add_member key j p.readers)

  -- After a revocation the key lacks the role, and nobody else gains or loses it.
  pub apply-revoke_members :
      (p q : ChannelPolicy) (actor key j : Str) (role : PolicyRole)
      → apply_policy_action p actor (revoke role key) ≡ ok q
      → contains j (members role q) ≡ (if key == j then false else contains j (members role p))
  unfolding apply_policy_action
  apply-revoke_members p q actor key j moderator e =
      ground (arith, contains-remove_all key j p.moderators)
  apply-revoke_members p q actor key j writer e =
      ground (arith, contains-remove_all key j p.writers)
  apply-revoke_members p q actor key j reader e =
      ground (arith, contains-remove_all key j p.readers)

  -- A transfer is the old owner's; after it the new owner owns the channel and stands in none of the
  -- lists of roles, and these are as they were for everybody else.
  pub apply-transfer :
      (p q : ChannelPolicy) (actor key j : Str) (role : PolicyRole)
      → apply_policy_action p actor (transfer_owner key) ≡ ok q
      → (p.owner ≡ some actor)
        × (q.owner ≡ some key)
        × (contains j (members role q) ≡ (if key == j then false else contains j (members role p)))
        × (q.mode ≡ p.mode)
        × (q.visibility ≡ p.visibility)
  unfolding apply_policy_action
  apply-transfer p q actor key j moderator e =
      ground (arith, owner_of_is_owner p actor, contains-remove_all key j p.moderators)
  apply-transfer p q actor key j writer e =
      ground (arith, owner_of_is_owner p actor, contains-remove_all key j p.writers)
  apply-transfer p q actor key j reader e =
      ground (arith, owner_of_is_owner p actor, contains-remove_all key j p.readers)
