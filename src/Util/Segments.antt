-- ===== src/Util/Segments.antt =====
-- What `valid_channel` of src/util.rs accepts: names made of non-empty segments.
use embernet.Prelude.{
  ℕ, Str, Bool, true, false, ◌&&◌, not, List, [], ◌∷◌, ◌≡◌, refl, ◌≢◌, ◌↔◌, ◌⊎◌, ◌≤◌, inl, inr, leb,
  ◌==◌, nat_eq, All, arith, if◌then◌else◌, Bool-cases,
}
use embernet.Util.{
  allowed, all_allowed, starts_with_slash, ends_with_slash, has_double_slash, valid_channel,
  push_byte, segments,
}

abbrev pub IsNameByte : ℕ → Type 0
IsNameByte c = ((b'a' ≤ c) × (c ≤ b'z')) ⊎ ((b'0' ≤ c) × (c ≤ b'9')) ⊎ (c ≡ b'-')

abbrev pub IsSegment : Str → Type 0
IsSegment w = (w ≢ []) × All IsNameByte w

name_byte : ℕ → Bool
name_byte c =
    if leb b'a' c && leb c b'z' then true else if leb b'0' c && leb c b'9' then true else c == b'-'

-- One pass over the name; the flag says that the current segment has a byte.
scan : Bool → Str → Bool
scan b [] = b
scan b (c ∷ s) =
    let next = scan false s in
    let more = scan true s in
    if c == b'/' then (if b then next else false) else if name_byte c then more else false

abbrev valid_rest : Str → Bool
valid_rest s = all_allowed s && not (ends_with_slash s) && not (has_double_slash s)

allowed_cases : (c : ℕ) → allowed c ≡ (if c == b'/' then true else name_byte c)
unfolding allowed name_byte
allowed_cases c = ground arith

name_byte_iff : (c : ℕ) → (name_byte c ≡ true) ↔ IsNameByte c
unfolding name_byte
name_byte_iff c = ground arith

abbrev Scans : Str → Type 0
Scans s = (scan true s ≡ valid_rest s) × (scan false s ≡ valid_channel s)

Scans-one : (c : ℕ) → Scans (c ∷ [])
unfolding scan valid_channel all_allowed starts_with_slash ends_with_slash has_double_slash
Scans-one c = (ground (arith, allowed_cases c), ground (arith, allowed_cases c))

Scans-more : (c d : ℕ) (s : Str) → Scans (d ∷ s) → Scans (c ∷ d ∷ s)
unfolding scan valid_channel all_allowed starts_with_slash ends_with_slash has_double_slash
Scans-more c d s ih =
    (ground (arith, allowed_cases c, ih.0, ih.1), ground (arith, allowed_cases c, ih.0, ih.1))

scan-eq : (s : Str) → Scans s
unfolding scan valid_channel all_allowed starts_with_slash ends_with_slash has_double_slash
scan-eq [] = (refl, refl)
scan-eq (c ∷ []) = Scans-one c
scan-eq (c ∷ d ∷ s) = Scans-more c d s (scan-eq (d ∷ s))

-- The first segment may still grow to the left.
abbrev Opens : List Str → Type 0
Opens [] = ⊥
Opens (w ∷ ws) = All IsNameByte w × All IsSegment ws

abbrev Reads : Str → List Str → Type 0
Reads s ws =
    ((scan true s ≡ true) ↔ Opens ws) × ((scan false s ≡ true) ↔ All IsSegment ws) × (ws ≢ [])

Reads-slash :
    (c : ℕ) (s : Str) (ws : List Str) → (c == b'/') ≡ true → Reads s ws → Reads (c ∷ s) ([] ∷ ws)
unfolding scan
Reads-slash c s ws e r = (
  ((λ h. (tt, r.1.0 (ground arith))), (λ h. ground (arith, r.1.1 h.1))),
  ((λ h. ground arith), (λ h. absurd (h.0.0 refl))),
  (λ p. cc),
)

Reads-byte :
    (c : ℕ) (s : Str) (ws : List Str)
    → (c == b'/') ≡ false
    → Reads s ws
    → Reads (c ∷ s) (push_byte c ws)
unfolding scan push_byte
Reads-byte c s [] e r = absurd (r.2 refl)
Reads-byte c s (w ∷ ws) e r = (
  (
    (λ h. let k = r.0.0 (ground arith) in (((name_byte_iff c).0 (ground arith), k.0), k.1)),
    (λ h. ground (arith, r.0.1 (h.0.1, h.1), (name_byte_iff c).1 h.0.0)),
  ),
  (
    (λ h.
        let k = r.0.0 (ground arith) in
        (((λ p. cc), ((name_byte_iff c).0 (ground arith), k.0)), k.1)),
    (λ h. ground (arith, r.0.1 (h.0.1.1, h.1), (name_byte_iff c).1 h.0.1.0)),
  ),
  (λ p. cc),
)

Reads-segments : (s : Str) → Reads s (segments s)
unfolding segments
Reads-segments [] =
    unfold scan in
    (
      ((λ h. (tt, tt)), (λ h. refl)),
      ((λ h. absurd (ground arith)), (λ h. absurd (h.0.0 refl))),
      (λ p. cc),
    )
Reads-segments (c ∷ s) = elim (Bool-cases (c == b'/')) [
  | inl e ↦ rw e (Reads-slash c s (segments s) e (Reads-segments s))
  | inr e ↦ rw e (Reads-byte c s (segments s) e (Reads-segments s))
]

-- A channel name is accepted exactly when each of its pieces between slashes has a character, and
-- all of these are lower-case ASCII letters, digits or hyphens.
pub valid_channel_iff : (name : Str) → (valid_channel name ≡ true) ↔ All IsSegment (segments name)
valid_channel_iff name = rw (← (scan-eq name).1) ((Reads-segments name).1)
