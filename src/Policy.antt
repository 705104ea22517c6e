-- ===== src/Policy.antt =====
-- The channel policy of src/store.rs: its data, and who may read and write under it.
pub mod Actions
pub mod History
use embernet.Prelude.{
  ℕ, Str, Bool, true, false, ◌&&◌, ◌||◌, not, List, [], Option, none, some, ◌≡◌, ◌↔◌, refl, arith,
  ◌==◌, Eq, str_eq, option_eq, contains,
}

pub data PolicyMode : Type 0 where
  open_mode restricted : PolicyMode

pub data ChannelVisibility : Type 0 where
  public_visible private_only : ChannelVisibility

pub data PolicyRole : Type 0 where
  moderator writer reader : PolicyRole

pub record ChannelPolicy : Type 0 where
  pub version : ℕ
  pub mode : PolicyMode
  pub visibility : ChannelVisibility
  pub owner : Option Str
  pub moderators : List Str
  pub writers : List Str
  pub readers : List Str

abbrev pub default_policy : ChannelPolicy
default_policy = record {
  version = 1;
  mode = open_mode;
  visibility = public_visible;
  owner = none;
  moderators = [];
  writers = [];
  readers = [];
}

pub data PolicyAction : Type 0 where
  restrict : Str → PolicyAction
  adopt : ChannelPolicy → PolicyAction
  grant : PolicyRole → Str → PolicyAction
  revoke : PolicyRole → Str → PolicyAction
  transfer_owner : Str → PolicyAction
  set_visibility : ChannelVisibility → PolicyAction

pub record PolicyEvent : Type 0 where
  pub id : Str
  pub channel : Str
  pub actor : Str
  pub ts : ℕ
  pub previous : Option Str
  pub action : PolicyAction
  pub sig : Str

-- The fields of an event that its id and its signature cover.
pub record PolicyEventPayload : Type 0 where
  pub channel : Str
  pub actor : Str
  pub ts : ℕ
  pub previous : Option Str
  pub action : PolicyAction

abbrev pub is_restricted : PolicyMode → Bool
is_restricted open_mode = false
is_restricted restricted = true

abbrev pub is_private : ChannelVisibility → Bool
is_private public_visible = false
is_private private_only = true

abbrev pub is_owner : ChannelPolicy → Str → Bool
is_owner p key = p.owner == some key

unfoldable pub policy_allows_read : ChannelPolicy → Str → Bool
policy_allows_read p key =
    not (is_private p.visibility)
    || is_owner p key
    || contains key p.moderators
    || contains key p.writers
    || contains key p.readers

-- The test of `authorize_append`.
unfoldable pub policy_allows_append : ChannelPolicy → Str → Bool
policy_allows_append p key =
    not (is_restricted p.mode)
    || is_owner p key
    || contains key p.moderators
    || contains key p.writers

abbrev pub members : PolicyRole → ChannelPolicy → List Str
members moderator p = p.moderators
members writer p = p.writers
members reader p = p.readers

abbrev pub with_members : PolicyRole → List Str → ChannelPolicy → ChannelPolicy
with_members moderator l p = record p { moderators = l }
with_members writer l p = record p { writers = l }
with_members reader l p = record p { readers = l }
