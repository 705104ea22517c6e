-- ===== src/Policy/Actions.antt =====
-- `authorize_policy_change` and `apply_policy_action` of src/store.rs. The caller drops the policy
-- of an action that fails, so the result carries the policy only on success.
pub mod Rights
pub mod Invariant
use embernet.Prelude.{
  ℕ, Str, Bool, true, false, ◌&&◌, ◌||◌, not, List, [], ◌∷◌, ◌++◌, Option, none, some, ◌==◌, nat_eq,
  str_eq, option_eq, contains, remove_all, sort, length, if◌then◌else◌,
}
use embernet.Fallible.{
  Result, ok, err, ensure, context, bad_hex, bad_public_key, channel_not_restricted,
  owner_manages_moderators, owner_or_moderator_manages_writers, owner_or_moderator_manages_readers,
  owner_transfers, owner_sets_visibility, invalid_restrict, invalid_adoption,
}
use embernet.Fallible.Checks.{◌>>=◌, ◌>>◌}
use embernet.Crates.{Crates}
use embernet.Policy.{
  PolicyRole, moderator, writer, reader, ChannelPolicy, PolicyAction, restrict, adopt, grant,
  revoke, transfer_owner, set_visibility, restricted, is_restricted, is_owner, members,
  with_members,
}

unfoldable pub validate_public_key : ⦃k : Crates⦄ → Str → Result (Unit {0})
validate_public_key ⦃k⦄ key = do
  bytes ← context (k.hex_decode key) bad_hex
  ensure (length bytes == 32) bad_public_key

-- Who may manage the members of a role.
abbrev pub authorize_role : Bool → Bool → PolicyRole → Result (Unit {0})
authorize_role owner mods moderator = ensure owner owner_manages_moderators
authorize_role owner mods writer = ensure (owner || mods) owner_or_moderator_manages_writers
authorize_role owner mods reader = ensure (owner || mods) owner_or_moderator_manages_readers

unfoldable pub authorize_policy_change : ChannelPolicy → Str → PolicyRole → Result (Unit {0})
authorize_policy_change p actor role = do
  ensure (is_restricted p.mode) channel_not_restricted
  authorize_role (is_owner p actor) (contains actor p.moderators) role

-- `push` of a new key and `sort`.
abbrev pub add_member : Str → List Str → List Str
add_member key l = if contains key l then l else sort (l ++ key ∷ [])

unfoldable pub apply_policy_action :
    ⦃k : Crates⦄ → ChannelPolicy → Str → PolicyAction → Result ChannelPolicy
apply_policy_action p actor (restrict owner) = do
  ensure (not (is_restricted p.mode) && (owner == actor)) invalid_restrict
  validate_public_key owner
  ok (record p { mode = restricted; owner = some owner })
apply_policy_action p actor (adopt adopted) = do
  ensure (not (is_restricted p.mode) && is_restricted adopted.mode && is_owner adopted actor)
      invalid_adoption
  ok adopted
apply_policy_action p actor (grant role key) = do
  validate_public_key key
  authorize_policy_change p actor role
  ok (with_members role (add_member key (members role p)) p)
apply_policy_action p actor (revoke role key) = do
  authorize_policy_change p actor role
  ok (with_members role (remove_all key (members role p)) p)
apply_policy_action p actor (transfer_owner new_owner) = do
  validate_public_key new_owner
  ensure (is_owner p actor) owner_transfers
  ok (record p {
    owner = some new_owner;
    moderators = remove_all new_owner p.moderators;
    writers = remove_all new_owner p.writers;
    readers = remove_all new_owner p.readers;
  })
apply_policy_action p actor (set_visibility visibility) = do
  ensure (is_restricted p.mode) channel_not_restricted
  ensure (is_owner p actor) owner_sets_visibility
  ok (record p { visibility = visibility })
