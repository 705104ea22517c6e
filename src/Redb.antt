-- ===== src/Redb.antt =====
-- What the program takes from the crate redb: tables from ordered keys to values. A transaction that
-- is not committed leaves the tables as they were.
use embernet.Prelude.{
  ℕ, Str, Bytes, List, Option, none, some, Eq, ◌==◌, nat_eq, str_eq, if◌then◌else◌, ◌≡◌,
}

pub record TableOps (K V : Type 0) : Type 1 where
  pub Table : Type 0
  pub empty : Table
  pub get : K → Table → Option V
  pub insert : K → V → Table → Table
  -- The entries in the order of their keys.
  pub entries : Table → List (K × V)

pub record TableLaws {K V : Type 0} ⦃e : Eq K⦄ (t : TableOps K V) : Type 0 where
  pub get_empty : (a : K) → t.get a t.empty ≡ none
  pub get_insert :
      (a b : K) (v : V) (m : t.Table)
      → t.get b (t.insert a v m) ≡ (if a == b then some v else t.get b m)

-- The tables by their types: `INDEX`, `INDEX_META`, and `INDEX_CHUNKS` with `INDEX_CHUNK_HASHES`.
pub record Redb : Type 1 where
  pub messages : TableOps Str Bytes
  pub metadata : TableOps Str ℕ
  pub chunks : TableOps ℕ Bytes

pub record RedbLaws (r : Redb) : Type 0 where
  pub messages : TableLaws r.messages
  pub metadata : TableLaws r.metadata
  pub chunks : TableLaws r.chunks
