-- ===== src/Util.antt =====
-- src/util.rs: the syntax of channel names and the directory of a channel.
pub mod Segments
pub mod Paths
use embernet.Prelude.{
  Str, codes, Bool, true, false, ◌&&◌, ◌||◌, not, List, [], ◌∷◌, ◌++◌, some, leb, ◌==◌, nat_eq,
  is_empty, str_eq, str_beq, last, if◌then◌else◌,
}
use embernet.Prelude.{ℕ}

-- The test on one character. A character outside ASCII has bytes from 128 only.
unfoldable pub allowed : ℕ → Bool
allowed c = (leb b'a' c && leb c b'z') || (leb b'0' c && leb c b'9') || c == b'/' || c == b'-'

unfoldable pub all_allowed : Str → Bool
all_allowed [] = true
all_allowed (c ∷ s) = allowed c && all_allowed s

unfoldable pub starts_with_slash : Str → Bool
starts_with_slash [] = false
starts_with_slash (c ∷ s) = c == b'/'

unfoldable pub ends_with_slash : Str → Bool
ends_with_slash [] = false
ends_with_slash (c ∷ []) = c == b'/'
ends_with_slash (c ∷ d ∷ s) = ends_with_slash (d ∷ s)

-- `name.contains("//")`.
unfoldable pub has_double_slash : Str → Bool
has_double_slash [] = false
has_double_slash (c ∷ s) = if c == b'/' && starts_with_slash s then true else has_double_slash s

unfoldable pub valid_channel : Str → Bool
valid_channel name =
    all_allowed name
    && not (is_empty name)
    && not (starts_with_slash name)
    && not (ends_with_slash name)
    && not (has_double_slash name)

unfoldable pub push_byte : ℕ → List Str → List Str
push_byte c [] = (c ∷ []) ∷ []
push_byte c (w ∷ ws) = (c ∷ w) ∷ ws

-- The pieces of a text between its slashes.
unfoldable pub segments : Str → List Str
unfolding push_byte
segments [] = [] ∷ []
segments (c ∷ s) = let rest = segments s in if c == b'/' then [] ∷ rest else push_byte c rest

pub record FilePath : Type 0 where
  pub is_absolute : Bool
  pub parts : List Str

-- Empty pieces and `.` are no components of a path; `..` is one.
unfoldable pub components : List Str → List Str
unfolding str_beq
components [] = []
components (w ∷ ws) =
    let rest = components ws in if is_empty w || w == codes "." then rest else w ∷ rest

-- `Path::join`: an absolute path replaces the path before it.
unfoldable pub join : FilePath → Str → FilePath
unfolding components segments starts_with_slash
join p s =
    if starts_with_slash s
    then record { is_absolute = true; parts = components (segments s) }
    else record p { parts = p.parts ++ components (segments s) }

unfoldable pub channel_to_path : FilePath → Str → FilePath
unfolding join
channel_to_path base name = join (join base (codes "channels")) name
