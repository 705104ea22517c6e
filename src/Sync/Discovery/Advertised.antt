-- ===== src/Sync/Discovery/Advertised.antt =====
-- What `discover_peer_channels` of src/sync.rs makes of the names that a peer advertises.
use embernet.Prelude.{
  ℕ, Bytes, Str, ◌&&◌, not, codes, List, ◌≤◌, Option, some, length, leb, str_eq, sort, contains,
  contains-sort, ◌≡◌, sym, ap, ◌∙◌, subst, arith,
}
use embernet.Fallible.{
  Result, ok, ensure, context, ok-injective, true_of_ensure, invalid_json, status_too_large,
  unhealthy_peer, too_many_channels, context-eq_ok,
}
use embernet.Fallible.Checks.{bind-eq_ok}
use embernet.Crates.{Crates}
use embernet.Ndjson.{Json}
use embernet.Util.{valid_channel}
use embernet.Proto.{KeypairFile, sign_bytes}
use embernet.Peers.{Urls}
use embernet.Challenges.{AuthChallenge, verify_auth_challenge, discovery_auth_payload}
use embernet.Sync.Discovery.{
  PeerStatus, Reply, Peer, dedup, keep_valid, read_reply, discover_peer_channels,
  max_discovered_channels, max_status_bytes, announces_more, status_url_of, signed_headers,
}
use embernet.Sync.Discovery.Names.{
  IsAscending, sort-IsSorted, names-IsAscending, contains-dedup, contains-keep_valid,
}

-- What comes of the names that a peer has advertised.
pub record IsTakenFrom (advertised names : List Str) : Type 0 where
  pub bounded : length advertised ≤ max_discovered_channels
  pub ascending : IsAscending names
  pub same : (name : Str) → contains name names ≡ (contains name advertised && valid_channel name)

read_reply-IsTakenFrom :
    ⦃j : Json PeerStatus⦄
    → (r : Reply) (names : List Str) → read_reply r ≡ ok names
    → (body : Bytes) × (status : PeerStatus) × (r.body ≡ ok body)
      × (length body ≤ max_status_bytes)
      × (j.from_slice body ≡ some status)
      × IsTakenFrom status.channels names
unfolding read_reply
read_reply-IsTakenFrom ⦃j⦄ r names h =
    let (_, _, h₁) =
      bind-eq_ok (ensure (not (announces_more r.content_length)) status_too_large) _ h in
    let (body, read, h₂) = bind-eq_ok r.body _ h₁ in
    let (_, small, h₃) =
      bind-eq_ok (ensure (leb (length body) max_status_bytes) status_too_large) _ h₂ in
    let (status, decoded, h₄) = bind-eq_ok (context (j.from_slice body) invalid_json) _ h₃ in
    let (_, _, h₅) = bind-eq_ok (ensure status.is_ok unhealthy_peer) _ h₄ in
    let (_, few, h₆) =
      bind-eq_ok (ensure (leb (length status.channels) max_discovered_channels) too_many_channels) _
        h₅ in
    let e = ok-injective (dedup (sort (keep_valid status.channels))) names h₆ in
    (
      body,
      status,
      read,
      ground (arith, true_of_ensure (leb (length body) max_status_bytes) status_too_large small),
      context-eq_ok (j.from_slice body) invalid_json status decoded,
      record {
        bounded = ground (
          arith,
          true_of_ensure (leb (length status.channels) max_discovered_channels) too_many_channels
              few,
        );
        ascending = subst IsAscending e (
            names-IsAscending (sort (keep_valid status.channels))
              (sort-IsSorted (keep_valid status.channels)));
        same = λ name.
            ap (contains name) (sym e)
            ∙ contains-dedup name (sort (keep_valid status.channels))
            ∙ contains-sort name (keep_valid status.channels)
            ∙ contains-keep_valid name status.channels;
      },
    )

module _ ⦃u : Urls⦄ ⦃k : Crates⦄ ⦃j : Json PeerStatus⦄ where
  -- What a discovery that succeeds has gone through.
  pub record IsDiscovered (identity_file : Result KeypairFile) (expected : Result (Option Str))
      (peer : Peer u) (peer_url : Str) (now now' timestamp : ℕ) (names : List Str) : Type 0 where
    pub url : u.Url
    pub identity : KeypairFile
    pub challenge : AuthChallenge
    pub pin : Option Str
    pub signature : Str
    pub reply : Reply
    pub body : Bytes
    pub peer_status : PeerStatus
    pub at_peer : status_url_of peer_url ≡ ok url
    pub has_identity : identity_file ≡ ok identity
    pub challenged : peer.get_challenge (u.set_path (codes "/challenge") url) ≡ ok challenge
    pub pinned : expected ≡ ok pin
    pub proven : verify_auth_challenge challenge (codes "/status") pin now now' ≡ ok tt
    pub signed :
        sign_bytes identity (discovery_auth_payload timestamp challenge.nonce challenge.responder)
        ≡ ok signature
    pub replied :
        peer.get_status url (signed_headers identity challenge timestamp signature) ≡ ok reply
    pub read : reply.body ≡ ok body
    pub short : length body ≤ max_status_bytes
    pub decoded : j.from_slice body ≡ some peer_status
    pub taken : IsTakenFrom peer_status.channels names

  -- A discovery succeeds only with a peer that has proven to be the one that was expected, and only on
  -- a reply within the limits to a request that was signed for its challenge. The names come in order,
  -- each once, and are those that the peer advertised and that are valid names of channels.
  pub discover_peer_channels-IsDiscovered :
      (identity_file : Result KeypairFile) (expected : Result (Option Str)) (peer : Peer u)
      (peer_url : Str) (now now' timestamp : ℕ) (names : List Str)
      → discover_peer_channels identity_file expected peer peer_url now now' timestamp ≡ ok names
      → IsDiscovered identity_file expected peer peer_url now now' timestamp names
  unfolding discover_peer_channels
  discover_peer_channels-IsDiscovered identity_file expected peer peer_url now now' timestamp names
        h =
      let (url, at_peer, h₁) = bind-eq_ok (status_url_of peer_url) _ h in
      let (identity, has_identity, h₂) = bind-eq_ok identity_file _ h₁ in
      let (c, challenged, h₃) =
        bind-eq_ok (peer.get_challenge (u.set_path (codes "/challenge") url)) _ h₂ in
      let (pin, pinned, h₄) = bind-eq_ok expected _ h₃ in
      let (_, proven, h₅) =
        bind-eq_ok (verify_auth_challenge c (codes "/status") pin now now') _ h₄ in
      let (signature, signed, h₆) =
        bind-eq_ok (sign_bytes identity (discovery_auth_payload timestamp c.nonce c.responder)) _
          h₅ in
      let (reply, replied, h₇) =
        bind-eq_ok (peer.get_status url (signed_headers identity c timestamp signature)) _ h₆ in
      let (body, status, read, short, decoded, taken) = read_reply-IsTakenFrom reply names h₇ in
      record {
        url = url;
        identity = identity;
        challenge = c;
        pin = pin;
        signature = signature;
        reply = reply;
        body = body;
        peer_status = status;
        at_peer = at_peer;
        has_identity = has_identity;
        challenged = challenged;
        pinned = pinned;
        proven = proven;
        signed = signed;
        replied = replied;
        read = read;
        short = short;
        decoded = decoded;
        taken = taken;
      }
