-- ===== src/MessageLog.antt =====
-- The message log of src/store.rs: `scan_verified_file` and `read_indexed_envelope` over the bytes of
-- `log.ndjson`.
pub mod Locations
pub mod Index
pub mod Messages
pub mod Reading
pub mod Visible
pub mod Hiding
pub mod Buckets
use embernet.Prelude.{
  ℕ, Bytes, Str, Bool, true, false, ◌&&◌, ◌||◌, not, List, [], ◌∷◌, ◌+◌, Option, none, some, take,
  drop, length, leb, ◌==◌, nat_eq, str_eq, if◌then◌else◌,
}
use embernet.Fallible.{
  Result, ok, err, ensure, context, invalid_json, truncated_record, corrupt_record, short_read,
}
use embernet.Fallible.Checks.{◌>>=◌, ◌>>◌}
use embernet.Crates.{Crates, ToVec}
use embernet.Util.{push_byte}
use embernet.Ndjson.{Json, strip_return}
use embernet.Proto.{Message, Envelope, verify}

-- The rounds of `read_until`: every line with its newline, and what stands behind the last one.
unfoldable pub raw_lines : Bytes → List Bytes
raw_lines [] = []
raw_lines (c ∷ s) =
    let rest = raw_lines s in if c == b'\n' then (c ∷ []) ∷ rest else push_byte c rest

-- The bytes before the newline at the end, where there is one.
unfoldable pub pop_newline : Bytes → Option Bytes
pop_newline [] = none
pop_newline (c ∷ []) = if c == b'\n' then some [] else none
pop_newline (c ∷ d ∷ s) = elim (pop_newline (d ∷ s)) [ none ↦ none | some l ↦ some (c ∷ l) ]

-- `bytes.iter().all(u8::is_ascii_whitespace)`.
unfoldable pub all_whitespace : Bytes → Bool
all_whitespace [] = true
all_whitespace (c ∷ s) =
    (c == b' ' || c == 9 || c == b'\n' || c == 12 || c == b'\r') && all_whitespace s

pub record ScannedEnvelope : Type 0 where
  pub envelope : Envelope
  pub offset : ℕ
  pub length : ℕ

-- `seek` and `read_exact`.
unfoldable pub read_exact : ℕ → ℕ → Bytes → Result Bytes
read_exact offset size bytes = do
  ensure (leb size (length (drop offset bytes))) short_read
  ok (take size (drop offset bytes))

module _ ⦃k : Crates⦄ ⦃v : ToVec Message⦄ ⦃j : Json Envelope⦄ where
  -- The loop of `scan_verified_file`, from the offset of the next line.
  unfoldable pub scan_lines : ℕ → List Bytes → Result (List ScannedEnvelope)
  scan_lines offset [] = ok []
  scan_lines offset (l ∷ ls) =
      let rest = scan_lines (offset + length l) ls in
      (do
        body ← context (pop_newline l) truncated_record
        if all_whitespace (strip_return body) then rest else (do
          env ← context (j.from_slice (strip_return body)) invalid_json
          verify env
          more ← rest
          ok ((record { envelope = env; offset = offset; length = length l }) ∷ more)))

  unfoldable pub scan_verified_file : Bytes → Result (List ScannedEnvelope)
  scan_verified_file bytes = scan_lines 0 (raw_lines bytes)

  unfoldable pub read_indexed_envelope : Bytes → Str → Str → ℕ → ℕ → Result Envelope
  read_indexed_envelope log chan id offset size = do
    raw ← read_exact offset size log
    body ← context (pop_newline raw) corrupt_record
    env ← context (j.from_slice body) invalid_json
    ensure ((env.id == id) && (env.channel == chan)) corrupt_record
    verify env
    ok env
