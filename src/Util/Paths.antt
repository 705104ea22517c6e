-- ===== src/Util/Paths.antt =====
-- The directory that src/util.rs gives a channel.
use embernet.Prelude.{
  ℕ, Str, codes, true, false, ◌||◌, List, [], ◌∷◌, ◌++◌, ◌≡◌, refl, ◌≢◌, inl, inr, ◌==◌, nat_eq,
  nat_beq_iff, str_beq_iff, is_empty, All, arith, Bool-cases, ap, ap₂, ◌∙◌, sym, str_beq,
}
use mathlib.Core.List.{append_cancel_left}
use embernet.Util.{
  starts_with_slash, valid_channel, push_byte, segments, FilePath, components, channel_to_path,
}
use embernet.Util.Segments.{IsSegment, valid_channel_iff}

-- `components().collect().join("/")`, as `collect_channels` of src/store.rs names a directory.
unfoldable pub join_segments : List Str → Str
join_segments [] = []
join_segments (w ∷ []) = w
join_segments (w ∷ v ∷ ws) = w ++ b'/' ∷ join_segments (v ∷ ws)

pub push_byte-ne : (c : ℕ) (ws : List Str) → push_byte c ws ≢ []
unfolding push_byte
push_byte-ne c [] p = cc
push_byte-ne c (w ∷ ws) p = cc

segments-ne : (s : Str) → segments s ≢ []
unfolding segments
segments-ne [] = λ p. cc
segments-ne (c ∷ s) = elim (Bool-cases (c == b'/')) [
  | inl e ↦ rw e (λ p. cc)
  | inr e ↦ rw e (push_byte-ne c (segments s))
]

join_segments-slash : (ws : List Str) → ws ≢ [] → join_segments ([] ∷ ws) ≡ b'/' ∷ join_segments ws
unfolding join_segments
join_segments-slash [] h = absurd (h refl)
join_segments-slash (w ∷ ws) h = refl

join_segments-push_byte :
    (c : ℕ) (ws : List Str) → ws ≢ [] → join_segments (push_byte c ws) ≡ c ∷ join_segments ws
unfolding join_segments push_byte
join_segments-push_byte c [] h = absurd (h refl)
join_segments-push_byte c (w ∷ []) h = refl
join_segments-push_byte c (w ∷ v ∷ ws) h = refl

-- Joining the pieces of a text by slashes gives the text back.
pub join_segments-segments : (s : Str) → join_segments (segments s) ≡ s
unfolding segments
join_segments-segments [] = unfold join_segments in refl
join_segments-segments (c ∷ s) = elim (Bool-cases (c == b'/')) [
  | inl e ↦ rw e (
      join_segments-slash (segments s) (segments-ne s)
      ∙ ap₂ ◌∷◌ (sym ((nat_beq_iff c b'/').0 e)) (join_segments-segments s))
  | inr e ↦ rw e (
      join_segments-push_byte c (segments s) (segments-ne s)
      ∙ ap (◌∷◌ c) (join_segments-segments s))
]

segment-ne-dots : (w : Str) → IsSegment w → (w ≢ codes ".") × (w ≢ codes "..")
segment-ne-dots [] h = absurd (h.0 refl)
segment-ne-dots (c ∷ w) h = ((λ p. ground (arith, p)), (λ p. ground (arith, p)))

keeps_segment : (w : Str) → IsSegment w → (is_empty w || str_beq w (codes ".")) ≡ false
keeps_segment [] h = absurd (h.0 refl)
keeps_segment (c ∷ w) h = ground (arith, str_beq_iff (c ∷ w) (codes "."), segment-ne-dots (c ∷ w) h)

components_of_segments : (ws : List Str) → All IsSegment ws → components ws ≡ ws
unfolding components
components_of_segments [] h = refl
components_of_segments (w ∷ ws) h =
    rw (keeps_segment w h.0) (ap (◌∷◌ w) (components_of_segments ws h.1))

not-slash : (s : Str) → valid_channel s ≡ true → starts_with_slash s ≡ false
unfolding valid_channel
not-slash s h = ground arith

abbrev pub in_channels : FilePath → List Str → FilePath
in_channels base ws = record base { parts = (base.parts ++ codes "channels" ∷ []) ++ ws }

no_dots : (ws : List Str) → All IsSegment ws → All (λ w. w ≢ codes "..") ws
no_dots [] h = tt
no_dots (w ∷ ws) h = ((segment-ne-dots w h.0).1, no_dots ws h.1)

-- The directory of a valid channel lies below the `channels` folder of the base: its path is the
-- base, `channels` and the pieces of the name, and no piece leads upwards.
pub channel_to_path_below :
    (base : FilePath) (name : Str)
    → valid_channel name ≡ true
    → (channel_to_path base name ≡ in_channels base (segments name))
      × All (λ w. w ≢ codes "..") (segments name)
unfolding channel_to_path
channel_to_path_below base name h =
    let pieces = (valid_channel_iff name).0 h in
    (
      rw (not-slash name h, components_of_segments (segments name) pieces),
      no_dots (segments name) pieces,
    )

channel_to_path-parts :
    (base : FilePath) (name : Str)
    → valid_channel name ≡ true
    → (channel_to_path base name).parts ≡ (base.parts ++ codes "channels" ∷ []) ++ segments name
channel_to_path-parts base name h =
    ap (λ (p : FilePath). p.parts) (channel_to_path_below base name h).0

-- Two valid channels have one directory only if they are the same channel.
pub channel_to_path-injective :
    (base : FilePath) (a b : Str)
    → valid_channel a ≡ true
    → valid_channel b ≡ true
    → channel_to_path base a ≡ channel_to_path base b
    → a ≡ b
channel_to_path-injective base a b ha hb e =
    sym (join_segments-segments a) ∙ ap join_segments pieces ∙ join_segments-segments b
  where
    pieces : segments a ≡ segments b
    pieces = append_cancel_left (base.parts ++ codes "channels" ∷ []) (segments a) (segments b) (
        sym (channel_to_path-parts base a ha)
        ∙ ap (λ (p : FilePath). p.parts) e
        ∙ channel_to_path-parts base b hb)
