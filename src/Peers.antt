-- ===== src/Peers.antt =====
-- The list of known peers and their pinned identities: src/peers.rs. URLs are those of the crate
-- reqwest, a parameter; white space is that of ASCII.
pub mod Pins
use embernet.Prelude.{
  ℕ, Bytes, Str, Bool, true, false, ◌&&◌, ◌||◌, not, codes, List, [], ◌∷◌, ◌++◌, map, ◌+◌, Option,
  none, some, length, leb, is_empty, ◌==◌, nat_eq, str_eq, str_le, if◌then◌else◌,
}
use embernet.Fallible.{
  Result, ok, err, ensure, context, Action, reads, lift, pure, writes, bad_url, bad_scheme,
  missing_host, bad_hex, bad_public_key, invalid_json, bad_peer_version, conflicting_pins,
  already_pinned, unpinned_peer, peer_not_inserted,
}
use embernet.Fallible.Checks
use embernet.Fallible.Actions.{◌>>=◌, ◌>>◌}
use embernet.Crates.{Crates}
use embernet.Ndjson.{Json, is_white}

-- What the program uses of `reqwest::Url`.
pub record Urls : Type 1 where
  pub Url : Type 0
  pub parse : Str → Option Url
  pub scheme : Url → Str
  pub set_scheme : Str → Url → Option Url
  pub has_host : Url → Bool
  pub path : Url → Str
  pub without_query_and_fragment : Url → Url
  pub set_path : Str → Url → Url
  pub to_string : Url → Str

pub record PeerRecord : Type 0 where
  pub url : Str
  pub public_key : Option Str

pub data StoredPeer : Type 0 where
  legacy : Str → StoredPeer
  full : PeerRecord → StoredPeer

pub record PeerConfig : Type 0 where
  pub version : ℕ
  pub peers : List StoredPeer

-- `str::trim`.
unfoldable pub trim_start : Str → Str
trim_start [] = []
trim_start (c ∷ s) = let rest = trim_start s in if is_white c then rest else c ∷ s

unfoldable pub trim_end : Str → Str
trim_end [] = []
trim_end (c ∷ s) = let rest = trim_end s in if is_white c && is_empty rest then [] else c ∷ rest

abbrev pub trim : Str → Str
trim s = trim_end (trim_start s)

-- `to_ascii_lowercase`.
unfoldable pub to_lowercase : Str → Str
to_lowercase [] = []
to_lowercase (c ∷ s) = (if leb b'A' c && leb c b'Z' then c + 32 else c) ∷ to_lowercase s

unfoldable pub normalize_peer_url : ⦃u : Urls⦄ → Str → Result Str
normalize_peer_url ⦃u⦄ value = Checks.◌>>=◌ (context (u.parse (trim value)) bad_url) λ url.
    Checks.◌>>◌ (ensure (u.scheme url == codes "ws" || u.scheme url == codes "wss") bad_scheme) (
      Checks.◌>>◌ (ensure (u.has_host url) missing_host) (
        let bare = u.without_query_and_fragment url in
        ok (
          u.to_string (
            if is_empty (u.path bare) || u.path bare == codes "/"
            then u.set_path (codes "/sync") bare
            else bare))))

unfoldable pub normalize_key : ⦃k : Crates⦄ → Str → Result Str
normalize_key ⦃k⦄ value =
    Checks.◌>>=◌ (context (k.hex_decode (to_lowercase (trim value))) bad_hex) λ bytes.
      Checks.◌>>◌ (ensure (length bytes == 32) bad_public_key) (ok (to_lowercase (trim value)))

-- `map(validate_public_key).transpose()`.
unfoldable pub normalize_pin : ⦃k : Crates⦄ → Option Str → Result (Option Str)
normalize_pin none = ok none
normalize_pin (some key) = Checks.◌>>=◌ (normalize_key key) λ x. ok (some x)

unfoldable pub find_peer : Str → List PeerRecord → Option PeerRecord
find_peer url [] = none
find_peer url (p ∷ peers) = if p.url == url then some p else find_peer url peers

-- Applying a change to the first record of this URL.
unfoldable pub replace_peer : PeerRecord → List PeerRecord → List PeerRecord
replace_peer new [] = []
replace_peer new (p ∷ peers) =
    let rest = replace_peer new peers in if p.url == new.url then new ∷ peers else p ∷ rest

-- The pin of a record that is met again while the list is read.
unfoldable pub merge_pins : Option Str → Option Str → Result (Option Str)
merge_pins none new = ok new
merge_pins (some old) none = ok (some old)
merge_pins (some old) (some new) =
    Checks.◌>>◌ (ensure (old == new) conflicting_pins) (ok (some old))

unfoldable pub merge_record : PeerRecord → List PeerRecord → Result (List PeerRecord)
merge_record new records = elim (find_peer new.url records) [
  | none ↦ ok (records ++ new ∷ [])
  | some existing ↦
      Checks.◌>>=◌ (merge_pins existing.public_key new.public_key)
        λ pin. ok (replace_peer (record { url = new.url; public_key = pin }) records)
]

-- The pin that `add_peer` gives a record that is there.
unfoldable pub add_pin : Option Str → Option Str → Result (Option Str)
add_pin current none = ok current
add_pin none (some key) = ok (some key)
add_pin (some current) (some key) =
    Checks.◌>>◌ (ensure (current == key) already_pinned) (ok (some key))

unfoldable pub pin_peer : Str → Option Str → List PeerRecord → Result (List PeerRecord)
pin_peer url key peers = elim (find_peer url peers) [
  | none ↦ ok (peers ++ (record { url = url; public_key = key }) ∷ [])
  | some existing ↦
      Checks.◌>>=◌ (add_pin existing.public_key key)
        λ pin. ok (replace_peer (record { url = url; public_key = pin }) peers)
]

unfoldable pub without_peer : Str → List PeerRecord → List PeerRecord
without_peer url [] = []
without_peer url (p ∷ peers) =
    let rest = without_peer url peers in if p.url == url then rest else p ∷ rest

-- `sort_by` the URLs, which is stable.
unfoldable pub insert_peer : PeerRecord → List PeerRecord → List PeerRecord
insert_peer p [] = p ∷ []
insert_peer p (q ∷ peers) = if str_le p.url q.url then p ∷ q ∷ peers else q ∷ insert_peer p peers

unfoldable pub sort_peers : List PeerRecord → List PeerRecord
sort_peers [] = []
sort_peers (p ∷ peers) = insert_peer p (sort_peers peers)

-- The content of `peers.json`, where there is the file.
abbrev pub PeerFile : Type 0
PeerFile = Option Bytes

module _ ⦃u : Urls⦄ ⦃k : Crates⦄ where
  abbrev pub as_record : StoredPeer → PeerRecord
  as_record (legacy url) = record { url = url; public_key = none }
  as_record (full p) = p

  unfoldable pub merge_all : List StoredPeer → List PeerRecord → Result (List PeerRecord)
  merge_all [] records = ok records
  merge_all (stored ∷ more) records =
      Checks.◌>>=◌ (normalize_peer_url (as_record stored).url) λ url.
        Checks.◌>>=◌ (normalize_pin (as_record stored).public_key) λ pin.
          Checks.◌>>=◌ (merge_record (record { url = url; public_key = pin }) records)
            λ merged. merge_all more merged

  module _ ⦃j : Json PeerConfig⦄ where
    unfoldable pub list_peer_records : PeerFile → Result (List PeerRecord)
    list_peer_records none = ok []
    list_peer_records (some bytes) =
        Checks.◌>>=◌ (context (j.from_slice bytes) invalid_json) λ config.
          Checks.◌>>◌ (ensure (config.version == 1 || config.version == 2) bad_peer_version)
            (Checks.◌>>=◌ (merge_all config.peers []) λ records. ok (sort_peers records))

    unfoldable pub list_peers : PeerFile → Result (List Str)
    list_peers f = Checks.◌>>=◌ (list_peer_records f) λ l. ok (map (λ (p : PeerRecord). p.url) l)

    unfoldable pub expected_peer_key : Str → PeerFile → Result (Option Str)
    expected_peer_key value f = Checks.◌>>=◌ (normalize_peer_url value) λ url.
        Checks.◌>>=◌ (list_peer_records f) λ peers. elim (find_peer url peers) [
          | none ↦ ok none
          | some p ↦ Checks.◌>>=◌ (context p.public_key unpinned_peer) λ key. ok (some key)
        ]

    abbrev pub write_peers : List PeerRecord → Action PeerFile (Unit {0})
    write_peers peers = writes (λ _.
        some (j.to_vec (record { version = 2; peers = map full (sort_peers peers) }) ++ b'\n' ∷ []))

    unfoldable pub add_peer : Str → Option Str → Action PeerFile PeerRecord
    add_peer value key = do
      url ← lift (normalize_peer_url value)
      pin ← lift (normalize_pin key)
      peers ← reads list_peer_records
      pinned ← lift (pin_peer url pin peers)
      write_peers pinned
      lift (context (find_peer url pinned) peer_not_inserted)

    unfoldable pub remove_peer : Str → Action PeerFile Bool
    remove_peer value = do
      url ← lift (normalize_peer_url value)
      peers ← reads list_peer_records
      write_peers (without_peer url peers)
      pure (not (length (without_peer url peers) == length peers))
