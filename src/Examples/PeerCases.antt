-- ===== src/Examples/PeerCases.antt =====
-- A list of peers that pins Alice's server, and a second peer that is added to it.
use embernet.Prelude.{
  Str, str_beq, codes, true, List, [], ◌∷◌, ◌++◌, map, some, ◌≡◌, refl, ◌⊎◌, inl, inr, str_eq,
}
use embernet.Fallible.{ok}
use embernet.Ndjson.{Json}
use embernet.Peers.{
  Urls, PeerRecord, StoredPeer, legacy, full, PeerConfig, trim_start, trim_end, to_lowercase,
  normalize_peer_url, normalize_key, normalize_pin, find_peer, pin_peer, merge_record, merge_all,
  insert_peer, sort_peers, PeerFile, list_peer_records, add_peer,
}
use embernet.Peers.Pins.{pin_of, add_peer-keeps_pins}
use embernet.Examples.Codes.{
  Code, nat_code, pair_code, sum_code, via_code, list_code, option_code, str_code, code_json,
}
use embernet.Examples.Toy.{toy}
use embernet.Examples.People.{key_of}

instance abbrev pub toy_urls : Urls
toy_urls = record {
  Url = Str;
  parse = λ s. some s;
  scheme = λ s. codes "ws";
  set_scheme = λ scheme s. some s;
  has_host = λ s. true;
  path = λ s. s;
  without_query_and_fragment = λ s. s;
  set_path = λ p s. s ++ p;
  to_string = λ s. s;
}

abbrev record_code : Code PeerRecord
record_code =
    via_code (pair_code str_code (option_code str_code)) (λ p. (p.url, p.public_key))
      (λ q. record { url = q.0; public_key = q.1 }) (λ y. refl)

abbrev stored_from : StoredPeer → Str ⊎ PeerRecord
stored_from (legacy u) = inl u
stored_from (full p) = inr p

abbrev stored_to : Str ⊎ PeerRecord → StoredPeer
stored_to (inl u) = legacy u
stored_to (inr p) = full p

stored_back : (y : StoredPeer) → stored_to (stored_from y) ≡ y
stored_back (legacy u) = refl
stored_back (full p) = refl

abbrev config_code : Code PeerConfig
config_code =
    via_code
      (pair_code nat_code
        (list_code (via_code (sum_code str_code record_code) stored_from stored_to stored_back)))
      (λ c. (c.version, c.peers)) (λ q. record { version = q.0; peers = q.1 }) (λ y. refl)

instance abbrev config_json : Json PeerConfig
config_json = code_json config_code

abbrev first_peer : PeerRecord
first_peer = record { url = codes "ws://p"; public_key = some (key_of 1) }

abbrev second_peer : PeerRecord
second_peer = record { url = codes "ws://q"; public_key = some (key_of 2) }

abbrev config : PeerConfig
config = record { version = 2; peers = full first_peer ∷ [] }

abbrev one_peer : PeerFile
one_peer = some (config_json.to_vec config)

one_peer_read : list_peer_records one_peer ≡ ok (first_peer ∷ [])
unfolding list_peer_records merge_all merge_record find_peer normalize_peer_url normalize_pin
    normalize_key trim_start trim_end to_lowercase sort_peers insert_peer str_beq
one_peer_read = refl

abbrev two_peers : PeerFile
two_peers = some (
    config_json.to_vec
      (record { version = 2; peers = map full (sort_peers (first_peer ∷ second_peer ∷ [])) })
    ++ b'\n' ∷ [])

second_added : add_peer (codes "ws://q") (some (key_of 2)) one_peer ≡ (ok second_peer, two_peers)
unfolding add_peer pin_peer find_peer normalize_peer_url normalize_pin normalize_key trim_start
    trim_end to_lowercase str_beq
second_added = rw one_peer_read refl

pin_before : pin_of (codes "ws://p") (first_peer ∷ []) ≡ some (key_of 1)
unfolding pin_of find_peer str_beq
pin_before = refl

add_peer-keeps_pins_example :
    (written : List PeerRecord) × ((two_peers
        ≡ some
            (config_json.to_vec (record { version = 2; peers = map full written }) ++ b'\n' ∷ []))
      × (pin_of (codes "ws://p") written ≡ some (key_of 1)))
add_peer-keeps_pins_example =
    add_peer-keeps_pins (codes "ws://q") (codes "ws://p") (key_of 1) (some (key_of 2)) one_peer
      two_peers second_peer (first_peer ∷ []) one_peer_read pin_before second_added
