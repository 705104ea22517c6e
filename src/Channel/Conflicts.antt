-- ===== src/Channel/Conflicts.antt =====
-- Where src/store.rs keeps a history that another one displaces: in a folder, by its newest id.
use embernet.Prelude.{
  Bytes, Str, Option, none, some, ◌==◌, str_eq, str_beq_iff, if◌then◌else◌, Bool, not, ◌&&◌,
  option_eq, ◌≡◌, refl, arith,
}
use embernet.Channel.{Folder, read_file, write_file, read-write_file}

-- The folder after a history was displaced by one that ends in `head`.
abbrev pub displaced : Str → Option Str → Bytes → Folder → Folder
displaced head none bytes f = f
displaced head (some id) bytes f = if id == head then f else write_file id bytes f

-- The saved history of this name is the displaced one.
abbrev pub is_displaced : Str → Option Str → Str → Bool
is_displaced head newest name = newest == some name && not (name == head)

pub read-displaced :
    (head name : Str) (newest : Option Str) (bytes : Bytes) (f : Folder)
    → read_file name (displaced head newest bytes f)
      ≡ (if is_displaced head newest name then some bytes else read_file name f)
read-displaced head name none bytes f = refl
read-displaced head name (some id) bytes f = ground (
  arith,
  str_beq_iff id head,
  str_beq_iff id name,
  str_beq_iff name head,
  read-write_file id name bytes f,
)
