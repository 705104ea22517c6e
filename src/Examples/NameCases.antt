-- ===== src/Examples/NameCases.antt =====
-- Channel names: tests, and the theorems of Util at the name `tech/linux`.
use embernet.Prelude.{Str, codes, true, false, [], ◌∷◌, ◌≡◌, refl, ◌↔◌, All}
use embernet.Util.{
  allowed, all_allowed, starts_with_slash, ends_with_slash, has_double_slash, valid_channel,
  segments, FilePath,
}
use embernet.Util.Segments.{IsSegment, valid_channel_iff}
use embernet.Util.Paths.{join_segments, join_segments-segments, channel_to_path-injective}

abbrev linux : Str
linux = codes "tech/linux"

abbrev base : FilePath
base = record { is_absolute = true; parts = codes "data" ∷ [] }

linux_valid : valid_channel linux ≡ true
unfolding valid_channel all_allowed allowed starts_with_slash ends_with_slash has_double_slash
linux_valid = refl

refused_names :
    (valid_channel (codes "") ≡ false)
    × (valid_channel (codes "/tech") ≡ false)
    × (valid_channel (codes "tech/") ≡ false)
    × (valid_channel (codes "Tech") ≡ false)
    × (valid_channel (codes "tech//linux") ≡ false)
    × (valid_channel (codes "tech.linux") ≡ false)
unfolding valid_channel all_allowed allowed starts_with_slash ends_with_slash has_double_slash
refused_names = (refl, refl, refl, refl, refl, refl)

valid_channel_iff_example : (valid_channel linux ≡ true) ↔ All IsSegment (segments linux)
valid_channel_iff_example = valid_channel_iff linux

join_segments-segments_example : join_segments (segments linux) ≡ linux
join_segments-segments_example = join_segments-segments linux

channel_to_path-injective_example : linux ≡ linux
channel_to_path-injective_example =
    channel_to_path-injective base linux linux linux_valid linux_valid refl
