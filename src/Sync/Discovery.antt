-- ===== src/Sync/Discovery.antt =====
-- `discover_peer_channels` and `sync_all_from_peer` of src/sync.rs. What the peer answers to a request
-- is a function of the request; connections, the clock and the random bytes of each visit to a channel
-- are arguments.
pub mod Names
pub mod Advertised
pub mod Acceptance
pub mod Visits
use embernet.Prelude.{
  ℕ, Bytes, Str, Bool, true, false, ◌&&◌, not, codes, List, [], ◌∷◌, ◌+◌, Option, none, some,
  length, leb, ◌==◌, str_eq, sort, if◌then◌else◌,
}
use embernet.Fallible.{
  Result, ok, err, ensure, context, Action, lift, pure, bad_url, bad_scheme, unconverted_url,
  status_too_large, unhealthy_peer, too_many_channels, invalid_json, invalid_channel_name,
}
use embernet.Fallible.Checks
use embernet.Fallible.Actions.{◌>>=◌, ◌>>◌}
use embernet.Crates.{Crates, ToVec}
use embernet.Ciphers.{Ciphers}
use embernet.Redb.{Redb}
use embernet.Ndjson.{Json}
use embernet.Util.{valid_channel}
use embernet.Proto.{KeypairFile, Message, Envelope, sign_bytes}
use embernet.Peers.{Urls}
use embernet.Challenges.{AuthChallenge, Headers, discovery_auth_payload, verify_auth_challenge}
use embernet.Challenges.Decimal.{show_i64}
use embernet.Channel.{create_channel}
use embernet.Keyring.{ChannelKey}
use embernet.KeyOffers.{KeyOfferPayload}
use embernet.Policy.{ChannelPolicy, PolicyEvent, PolicyEventPayload}
use embernet.Moderation.Tombstones.{ModerationState}
use embernet.Moderation.{ModerationEvent, ModerationEventPayload}
use embernet.MessageLog.Messages.{IndexedDir}
use embernet.Sync.Socket.{Socket}
use embernet.Sync.Session.{Session, replace}
use embernet.Sync.{SyncJson}
use embernet.Sync.Client.{sync_from_peer}

abbrev pub max_discovered_channels : ℕ
max_discovered_channels = 10000

abbrev pub max_status_bytes : ℕ
max_status_bytes = 1048576

pub record PeerStatus : Type 0 where
  pub is_ok : Bool
  pub channels : List Str

-- A reply with a status of success: the length that it announces, and reading its body.
pub record Reply : Type 0 where
  pub content_length : Option ℕ
  pub body : Result Bytes

-- The peer over HTTP. An error is one of the request, of the status or of the decoding.
pub record Peer (u : Urls) : Type 0 where
  pub get_challenge : u.Url → Result AuthChallenge
  pub get_status : u.Url → Headers → Result Reply

-- `Vec::dedup`.
unfoldable pub dedup : List Str → List Str
dedup [] = []
dedup (x ∷ []) = x ∷ []
dedup (x ∷ y ∷ l) = let rest = dedup (y ∷ l) in if x == y then rest else x ∷ rest

unfoldable pub keep_valid : List Str → List Str
keep_valid [] = []
keep_valid (x ∷ l) = let rest = keep_valid l in if valid_channel x then x ∷ rest else rest

-- A length that is announced and too large.
abbrev pub announces_more : Option ℕ → Bool
announces_more none = false
announces_more (some n) = not (leb n max_status_bytes)

-- The part of `discover_peer_channels` that reads the reply.
unfoldable pub read_reply : ⦃j : Json PeerStatus⦄ → Reply → Result (List Str)
read_reply ⦃j⦄ r = Checks.◌>>◌ (ensure (not (announces_more r.content_length)) status_too_large) (
    Checks.◌>>=◌ r.body λ body.
      Checks.◌>>◌ (ensure (leb (length body) max_status_bytes) status_too_large) (
        Checks.◌>>=◌ (context (j.from_slice body) invalid_json) λ status.
          Checks.◌>>◌ (ensure status.is_ok unhealthy_peer) (
            Checks.◌>>◌
              (ensure (leb (length status.channels) max_discovered_channels) too_many_channels)
              (ok (dedup (sort (keep_valid status.channels)))))))

-- The scheme of HTTP for that of a WebSocket.
abbrev pub http_scheme : Str → Result Str
http_scheme scheme =
    if scheme == codes "ws"
    then ok (codes "http")
    else (if scheme == codes "wss" then ok (codes "https") else err bad_scheme)

-- The headers of a request that answers the challenge.
abbrev pub signed_headers : KeypairFile → AuthChallenge → ℕ → Str → Headers
signed_headers identity c timestamp signature = record {
  key = some (some identity.public_key);
  timestamp = some (some (show_i64 timestamp));
  signature = some (some signature);
  nonce = some (some c.nonce);
}

module _ ⦃u : Urls⦄ where
  unfoldable pub status_url_of : Str → Result u.Url
  status_url_of peer_url = Checks.◌>>=◌ (context (u.parse peer_url) bad_url) λ url.
      Checks.◌>>=◌ (http_scheme (u.scheme url)) λ scheme.
        Checks.◌>>=◌ (context (u.set_scheme scheme url) unconverted_url)
          λ converted. ok (u.without_query_and_fragment (u.set_path (codes "/status") converted))

  module _ ⦃k : Crates⦄ ⦃j : Json PeerStatus⦄ where
    unfoldable pub discover_peer_channels :
        Result KeypairFile
        → Result (Option Str)
        → Peer u
        → Str
        → (now now' timestamp : ℕ) → Result (List Str)
    discover_peer_channels identity_file expected peer peer_url now now' timestamp =
        Checks.◌>>=◌ (status_url_of peer_url) λ status_url. Checks.◌>>=◌ identity_file λ identity.
          Checks.◌>>=◌ (peer.get_challenge (u.set_path (codes "/challenge") status_url)) λ c.
            Checks.◌>>=◌ expected λ pin.
              Checks.◌>>◌ (verify_auth_challenge c (codes "/status") pin now now') (
                Checks.◌>>=◌
                  (sign_bytes identity (discovery_auth_payload timestamp c.nonce c.responder))
                  λ signature.
                    Checks.◌>>=◌
                      (peer.get_status status_url (signed_headers identity c timestamp signature))
                      λ reply. read_reply reply)

pub record PeerSyncSummary : Type 0 where
  pub channels : ℕ
  pub received : ℕ

-- What a visit to one channel of the peer meets.
pub record Visit : Type 0 where
  pub identity_file : Result KeypairFile
  pub connected : Result (Unit {0})
  pub expected : Result (Option Str)
  pub nonces : ℕ → Bytes
  pub auth_ts : ℕ
  pub now : ℕ
  pub now' : ℕ
  pub socket : Socket

module _ ⦃r : Redb⦄ ⦃s : SyncJson⦄ ⦃k : Crates⦄ ⦃c : Ciphers⦄ ⦃v : ToVec Message⦄
    ⦃p : ToVec PolicyEventPayload⦄ ⦃m : ToVec ModerationEventPayload⦄ ⦃o : ToVec KeyOfferPayload⦄
    ⦃j : Json Envelope⦄ ⦃policy_json : Json PolicyEvent⦄ ⦃cache_json : Json ChannelPolicy⦄
    ⦃moderation_json : Json ModerationEvent⦄ ⦃state_json : Json ModerationState⦄
    ⦃key_json : Json (List ChannelKey)⦄ where
  -- The channels of the node by their names.
  abbrev pub Node : Type 0
  Node = Str → IndexedDir

  -- `sync_from_peer` on one channel, with a connection of its own.
  unfoldable pub visit : Visit → Str → Action Node ℕ
  visit x name channels =
      let start : Session = record { node = channels name; socket = x.socket } in
      let done =
        sync_from_peer name x.identity_file x.connected x.expected x.nonces x.auth_ts x.now x.now'
          start in
      (done.0, replace name done.1.node channels)

  abbrev pub make_channel : Str → Action Node (Unit {0})
  make_channel name channels =
      let d = channels name in
      (ok tt, replace name (record d { dir = create_channel d.dir }) channels)

  -- The loop of `sync_all_from_peer`, with the count so far.
  unfoldable pub visit_all : (Str → Visit) → List Str → ℕ → Action Node ℕ
  visit_all visits [] n = pure n
  visit_all visits (name ∷ names) n = do
    lift (ensure (valid_channel name) invalid_channel_name)
    make_channel name
    received ← visit (visits name) name
    visit_all visits names (n + received)

  -- `discovered` is what `discover_peer_channels` gives.
  unfoldable pub sync_all_from_peer :
      Result (List Str) → (Str → Visit) → Action Node PeerSyncSummary
  sync_all_from_peer discovered visits = do
    names ← lift discovered
    received ← visit_all visits names 0
    pure (record { channels = length names; received = received })
