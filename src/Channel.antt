-- ===== src/Channel.antt =====
-- The directory of a channel, as src/store.rs and src/crypto.rs lay it out: the content of each
-- file, or `none` where there is no file. A write to a temporary file that is renamed counts as one
-- write. Advisory locks make each operation run alone; of a lock file only this matters, that it can
-- be opened where the directory exists. No write fails for want of space or permission.
pub mod Conflicts
use embernet.Prelude.{
  Bytes, Str, Bool, true, List, [], ◌∷◌, ◌++◌, map, Option, none, some, ◌==◌, str_eq, str_beq_iff,
  sort, if◌then◌else◌, ◌≡◌, refl, arith,
}
use embernet.Fallible.{Result, ensure, context, missing_directory, missing_log}

-- The files of a folder, by their names without the extension.
abbrev pub Folder : Type 0
Folder = List (Str × Bytes)

pub record ChannelDir : Type 0 where
  pub exists : Bool
  pub log : Option Bytes
  pub policy_log : Option Bytes
  pub policy_cache : Option Bytes
  pub policy_conflicts : Folder
  pub moderation_log : Option Bytes
  pub moderation_cache : Option Bytes
  pub moderation_conflicts : Folder
  pub keyring : Option Bytes

-- `create_channel`: the directory and an empty log, where they are not there yet.
unfoldable pub create_channel : ChannelDir → ChannelDir
create_channel d = record d {
  exists = true;
  log = elim d.log [ none ↦ some [] | some bytes ↦ some bytes ];
}

-- `open_history_lock`.
abbrev pub open_lock : ChannelDir → Result (Unit {0})
open_lock d = ensure d.exists missing_directory

-- The log is opened for its lock.
abbrev pub open_log : ChannelDir → Result Bytes
open_log d = context d.log missing_log

-- Opening a file with `create` and `append`, and writing.
abbrev pub append_file : Option Bytes → Bytes → Option Bytes
append_file none new = some new
append_file (some bytes) new = some (bytes ++ new)

unfoldable pub read_file : Str → Folder → Option Bytes
read_file name [] = none
read_file name ((n, bytes) ∷ f) = if n == name then some bytes else read_file name f

-- `std::fs::write` replaces the file of that name.
unfoldable pub write_file : Str → Bytes → Folder → Folder
write_file name bytes [] = (name, bytes) ∷ []
write_file name bytes ((n, old) ∷ f) =
    if n == name then (name, bytes) ∷ f else (n, old) ∷ write_file name bytes f

-- The stems of the files of a folder, sorted.
unfoldable pub file_names : Folder → List Str
file_names f = sort (map (λ (e : Str × Bytes). e.0) f)

pub read-write_file :
    (name other : Str) (bytes : Bytes) (f : Folder)
    → read_file other (write_file name bytes f)
      ≡ (if name == other then some bytes else read_file other f)
unfolding read_file write_file
read-write_file name other bytes [] = refl
read-write_file name other bytes ((n, old) ∷ f) = ground (
  arith,
  str_beq_iff n name,
  str_beq_iff n other,
  str_beq_iff name other,
  read-write_file name other bytes f,
)
