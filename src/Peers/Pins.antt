-- ===== src/Peers/Pins.antt =====
-- A pinned identity of src/peers.rs is not replaced: `add_peer` keeps it or fails.
use embernet.Prelude.{
  Str, true, false, str_le, if◌then◌else◌, List, [], ◌∷◌, ◌++◌, map, Option, none, some, ◌==◌,
  str_eq, str_beq_iff, ◌≡◌, refl, sym, ap, ◌∙◌, subst, arith, Bool-cases, Option-cases, inl, inr,
}
use mathlib.Core.Option.{some-injective}
use embernet.Fallible.{Result, ok, ensure, already_pinned, ok-injective, true_of_ensure}
use embernet.Fallible.Actions.{proceed-eq_ok}
use embernet.Fallible.Checks.{bind-eq_ok}
use embernet.Crates.{Crates}
use embernet.Ndjson.{Json}
use embernet.Peers.{
  Urls, PeerRecord, full, PeerConfig, normalize_peer_url, normalize_pin, find_peer, replace_peer,
  add_pin, pin_peer, insert_peer, sort_peers, PeerFile, list_peer_records, add_peer,
}

-- The identity that a list pins for a URL.
unfoldable pub pin_of : Str → List PeerRecord → Option Str
pin_of url peers = elim (find_peer url peers) [ none ↦ none | some p ↦ p.public_key ]

find-append :
    (other : Str) (new q : PeerRecord) (peers : List PeerRecord)
    → find_peer other peers ≡ some q
    → find_peer other (peers ++ new ∷ []) ≡ some q
unfolding find_peer
find-append other new q [] h = absurd cc
find-append other new q (p ∷ peers) h = elim (Bool-cases (p.url == other)) [
  | inl b ↦ rw b (rw b at h)
  | inr b ↦ rw b (find-append other new q peers (rw b at h))
]

find-replace_other :
    (other : Str) (new : PeerRecord) (peers : List PeerRecord)
    → (new.url == other) ≡ false
    → find_peer other (replace_peer new peers) ≡ find_peer other peers
unfolding find_peer replace_peer
find-replace_other other new [] h = refl
find-replace_other other new (p ∷ peers) h =
    ground (arith, find-replace_other other new peers h, str_beq_iff p.url new.url)

find-replace_same :
    (new q : PeerRecord) (peers : List PeerRecord)
    → find_peer new.url peers ≡ some q
    → find_peer new.url (replace_peer new peers) ≡ some new
unfolding find_peer replace_peer
find-replace_same new q [] h = absurd cc
find-replace_same new q (p ∷ peers) h = elim (Bool-cases (p.url == new.url)) [
  | inl b ↦ rw (b, (str_beq_iff new.url new.url).1 refl) refl
  | inr b ↦ rw b (rw b (find-replace_same new q peers (rw b at h)))
]

-- A pin that is there stays, or the change fails.
add_pin-kept : (pin : Str) (key new : Option Str) → add_pin (some pin) key ≡ ok new → new ≡ some pin
unfolding add_pin
add_pin-kept pin none new h = sym (ok-injective (some pin) new h)
add_pin-kept pin (some key) new h =
    let (_, same, e) = bind-eq_ok (ensure (pin == key) already_pinned) _ h in
    let keys = (str_beq_iff pin key).0 (true_of_ensure (pin == key) already_pinned same) in
    sym (ok-injective (some key) new e) ∙ ap some (sym keys)

pin_of-found :
    (url pin : Str) (peers : List PeerRecord)
    → pin_of url peers ≡ some pin
    → (q : PeerRecord) × ((find_peer url peers ≡ some q) × (q.public_key ≡ some pin))
unfolding pin_of
pin_of-found url pin peers h = elim (Option-cases (find_peer url peers)) [
  | inl e ↦ absurd (cc (rw (pin_of, e) at h))
  | inr (q, e) ↦ (q, (e, rw (pin_of, e) at h))
]

pin_of-eq :
    (url : Str) (q : PeerRecord) (peers : List PeerRecord)
    → find_peer url peers ≡ some q
    → pin_of url peers ≡ q.public_key
unfolding pin_of
pin_of-eq url q peers h = rw (pin_of, h) refl

same_url-kept :
    (url other pin : Str) (key new : Option Str) (p q : PeerRecord) (peers : List PeerRecord)
    → url ≡ other
    → find_peer url peers ≡ some p
    → find_peer other peers ≡ some q
    → q.public_key ≡ some pin
    → add_pin p.public_key key ≡ ok new
    → pin_of other (replace_peer (record { url = url; public_key = new }) peers) ≡ some pin
same_url-kept url other pin key new p q peers u e found has added =
    let changed : PeerRecord = record { url = url; public_key = new } in
    let one : p ≡ q = some-injective p q (sym e ∙ ap (λ x. find_peer x peers) u ∙ found) in
    let pinned : p.public_key ≡ some pin = ap (λ (x : PeerRecord). x.public_key) one ∙ has in
    ap (λ x. pin_of x (replace_peer changed peers)) (sym u)
    ∙ pin_of-eq url changed (replace_peer changed peers) (find-replace_same changed p peers e)
    ∙ add_pin-kept pin key new (ap (λ x. add_pin x key) (sym pinned) ∙ added)

pin_peer-kept :
    (url other pin : Str) (key : Option Str) (peers pinned : List PeerRecord)
    → pin_peer url key peers ≡ ok pinned
    → pin_of other peers ≡ some pin
    → pin_of other pinned ≡ some pin
unfolding pin_peer
pin_peer-kept url other pin key peers pinned h old =
    let (q, (found, has)) = pin_of-found other pin peers old in
    elim (Option-cases (find_peer url peers)) [
      | inl e ↦
          let new : PeerRecord = record { url = url; public_key = key } in
          subst (λ l. pin_of other l ≡ some pin)
            (ok-injective (peers ++ new ∷ []) pinned (rw (pin_peer, e) at h))
            (pin_of-eq other q (peers ++ new ∷ []) (find-append other new q peers found) ∙ has)
      | inr (p, e) ↦
          let (x, added, e') = bind-eq_ok (add_pin p.public_key key) _ (rw (pin_peer, e) at h) in
          let new : PeerRecord = record { url = url; public_key = x } in
          subst (λ l. pin_of other l ≡ some pin) (ok-injective (replace_peer new peers) pinned e')
            (elim (Bool-cases (url == other)) [
              | inl b ↦
                  same_url-kept url other pin key x p q peers ((str_beq_iff url other).0 b) e found
                    has added
              | inr b ↦
                  pin_of-eq other q (replace_peer new peers)
                    (find-replace_other other new peers b ∙ found)
                  ∙ has
            ])
    ]

str_le_refl : (s : Str) → str_le s s ≡ true
unfolding str_le
str_le_refl [] = refl
str_le_refl (a ∷ s) = ground (arith, str_le_refl s)

-- Sorting by the URL leaves the first record of each URL the first.
find-insert_peer :
    (url : Str) (p : PeerRecord) (peers : List PeerRecord)
    → find_peer url (insert_peer p peers) ≡ find_peer url (p ∷ peers)
unfolding find_peer insert_peer
find-insert_peer url p [] = refl
find-insert_peer url p (q ∷ peers) = ground (
  arith,
  find-insert_peer url p peers,
  str_beq_iff p.url url,
  str_beq_iff q.url url,
  str_le_refl p.url,
)

find-sort_peers :
    (url : Str) (peers : List PeerRecord) → find_peer url (sort_peers peers) ≡ find_peer url peers
unfolding find_peer sort_peers
find-sort_peers url [] = refl
find-sort_peers url (p ∷ peers) =
    find-insert_peer url p (sort_peers peers)
    ∙ ap (λ found. if p.url == url then some p else found) (find-sort_peers url peers)

pin_of-sort_peers :
    (url : Str) (peers : List PeerRecord) → pin_of url (sort_peers peers) ≡ pin_of url peers
unfolding pin_of
pin_of-sort_peers url peers = rw (pin_of, find-sort_peers url peers) refl

module _ ⦃u : Urls⦄ ⦃k : Crates⦄ ⦃j : Json PeerConfig⦄ where
  -- If a list of peers pins an identity for a URL, then after any peer has been added without an error
  -- the list that is written to the file pins the same identity for that URL.
  pub add_peer-keeps_pins :
      (value other pin : Str) (key : Option Str) (f f' : PeerFile) (added : PeerRecord)
      (peers : List PeerRecord)
      → list_peer_records f ≡ ok peers
      → pin_of other peers ≡ some pin
      → add_peer value key f ≡ (ok added, f')
      → (written : List PeerRecord) × ((f'
            ≡ some (j.to_vec (record { version = 2; peers = map full written }) ++ b'\n' ∷ []))
          × (pin_of other written ≡ some pin))
  unfolding add_peer
  add_peer-keeps_pins value other pin key f f' added peers read old h =
      let (url, _, h₁) = proceed-eq_ok _ (normalize_peer_url value) f f' added h in
      let (new, _, h₂) = proceed-eq_ok _ (normalize_pin key) f f' added h₁ in
      let (found, again, h₃) = proceed-eq_ok _ (list_peer_records f) f f' added h₂ in
      let (pinned, changed, h₄) = proceed-eq_ok _ (pin_peer url new found) f f' added h₃ in
      let same : peers ≡ found = ok-injective peers found (sym read ∙ again) in
      (
        sort_peers pinned,
        (
          ap (λ (x : Result PeerRecord × PeerFile). x.1) (sym h₄),
          pin_of-sort_peers other pinned
              ∙ pin_peer-kept url other pin new found pinned changed
                  (ap (pin_of other) (sym same) ∙ old),
        ),
      )
