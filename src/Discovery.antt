-- ===== src/Discovery.antt =====
-- Listing the channels of a node in src/store.rs, and the handler of `/status` in src/server.rs.
pub mod Disclosure
use embernet.Prelude.{
  ℕ, Str, Bool, true, false, ◌&&◌, not, codes, List, [], ◌∷◌, ◌++◌, Option, none, some, ◌==◌,
  str_eq, sort, if◌then◌else◌,
}
use embernet.Fallible.{Result, Error, ok, err, ensure, Action, invalid_channel_name}
use embernet.Fallible.Checks.{◌>>=◌, ◌>>◌}
use embernet.Crates.{Crates, ToVec}
use embernet.Ndjson.{Json}
use embernet.Util.{valid_channel}
use embernet.Util.Paths.{join_segments}
use embernet.Channel.{ChannelDir}
use embernet.Policy.{ChannelPolicy, is_private, policy_allows_read, PolicyEvent, PolicyEventPayload}
use embernet.PolicyStore.{read_channel_policy}
use embernet.Challenges.{AppState, Headers, discovery_requester}

-- What a directory has, in the order in which the system lists it.
mutual
  pub data Entry : Type 0 where
    directory : Str → Entries → Entry
    plain_file : Str → Entry

  pub data Entries : Type 0 where
    no_entries : Entries
    entry_and : Entry → Entries → Entries

abbrev is_channel : Str → List Str → Bool
is_channel name path = name == codes "log.ndjson" && valid_channel (join_segments path)

-- The channels below a directory, whose path from the root is given by its parts.
unfoldable pub collect_channels : List Str → Entries → List Str
collect_channels path no_entries = []
collect_channels path (entry_and (directory name inner) rest) =
    collect_channels (path ++ name ∷ []) inner ++ collect_channels path rest
collect_channels path (entry_and (plain_file name) rest) =
    let more = collect_channels path rest in
    if is_channel name path then join_segments path ∷ more else more

-- `none` where there is no directory `channels`.
unfoldable pub list_channels : Option Entries → List Str
list_channels none = sort []
list_channels (some root) = sort (collect_channels [] root)

-- A requester without a key reads public channels.
abbrev pub is_readable : Option Str → ChannelPolicy → Bool
is_readable none policy = not (is_private policy.visibility)
is_readable (some key) policy = policy_allows_read policy key

module _ ⦃k : Crates⦄ ⦃p : ToVec PolicyEventPayload⦄ ⦃policy_json : Json PolicyEvent⦄
    ⦃cache_json : Json ChannelPolicy⦄ (channels : Str → ChannelDir) where
  -- The loop of `list_readable_channels`.
  unfoldable pub keep_readable : Option Str → List Str → Result (List Str)
  keep_readable key [] = ok []
  keep_readable key (name ∷ names) = do
    ensure (valid_channel name) invalid_channel_name
    policy ← read_channel_policy name (channels name)
    more ← keep_readable key names
    ok (if is_readable key policy then name ∷ more else more)

  unfoldable pub list_readable_channels : Option Entries → Option Str → Result (List Str)
  list_readable_channels root key = keep_readable key (list_channels root)

-- `unwrap_or_default`.
abbrev pub or_nothing : Result (List Str) → List Str
or_nothing (ok names) = names
or_nothing (err e) = []

-- What `/status` answers.
pub data StatusReply : Type 0 where
  unauthorized : Error → StatusReply
  listing : List Str → StatusReply

module _ ⦃k : Crates⦄ ⦃p : ToVec PolicyEventPayload⦄ ⦃policy_json : Json PolicyEvent⦄
    ⦃cache_json : Json ChannelPolicy⦄ (root : Option Entries) (channels : Str → ChannelDir) where
  abbrev pub reply_to : Result (Option Str) → StatusReply
  reply_to (err e) = unauthorized e
  reply_to (ok requester) = listing (or_nothing (list_readable_channels channels root requester))

  -- The handler of `/status`: the reply, and the table of challenges afterwards.
  unfoldable pub status : Headers → ℕ → ℕ → AppState → StatusReply × AppState
  status h now now' s =
      let answered = discovery_requester h now now' s in (reply_to answered.0, answered.1)
