-- ===== src/Table/Operations.antt =====
-- table/table.go: the table, and the operations that only read. The state of a table is its record,
-- with what is stored. A method that holds the lock is one step; the counters wrap.
pub mod Changes
pub mod Inserted
pub mod Failed
use golance_db.Prelude.{ℕ, List, [], ◌∷◌, Option, none, some, Result, ok, err, length, ◌>>=◌}
use golance_db.Prelude.Int.{ℤ, pos, add_i32, add_i64, ltb_ℤ}
use golance_db.Prelude.Sort.{Sorter}
use golance_db.Bytes.{Bytes}
use golance_db.Text.{FilePath, join}
use golance_db.Encode.Types.{CompressionType}
use golance_db.Storage.Store.{Store}
use golance_db.Table.Types.{Schema, Fragment, Manifest}
use golance_db.Table.VersionManager.{VersionManager, new_version_manager, publish, get_version}
use golance_db.Table.ManifestStore.{ManifestJson, read_manifest, latest_version}

pub record Table : Type 0 where
  pub name : Bytes
  pub table_path : FilePath
  pub schema : Schema
  pub version_mgr : VersionManager
  pub compression : CompressionType
  pub next_fragment_id : ℤ
  pub next_version : ℤ

-- "_versions" below the directory of the table
unfoldable pub versions_path : FilePath → FilePath
versions_path table_path =
    join table_path (b'_' ∷ b'v' ∷ b'e' ∷ b'r' ∷ b's' ∷ b'i' ∷ b'o' ∷ b'n' ∷ b's' ∷ [])

unfoldable pub new_table : Bytes → FilePath → Schema → CompressionType → Table
unfolding new_version_manager
new_table name table_path schema compression = record {
  name = name;
  table_path = table_path;
  schema = schema;
  version_mgr = new_version_manager (pos 10);
  compression = compression;
  next_fragment_id = pos 0;
  next_version = pos 1;
}

-- `NumRows`, of which the sum wraps
unfoldable pub sum_rows : ℤ → List Fragment → ℤ
sum_rows total [] = total
sum_rows total (f ∷ fs) = sum_rows (add_i64 total f.num_rows) fs

-- The manifest in the cache, or else from its file
abbrev pub or_read : Option Manifest → Result Manifest → Result Manifest
or_read (some m) read = ok m
or_read none read = read

module _ {W : Type 0} (json : ManifestJson) (store : Store W) (sort : Sorter ℤ ltb_ℤ) where
  unfoldable pub open_table : Bytes → FilePath → CompressionType → W → Result Table
  unfolding read_manifest versions_path latest_version new_version_manager
  open_table name table_path compression w = do
    v ← latest_version store (versions_path table_path) sort w
    m ← read_manifest store (versions_path table_path) json v w
    ok (record {
      name = name;
      table_path = table_path;
      schema = m.schema;
      version_mgr = publish sort m (new_version_manager (pos 10));
      compression = compression;
      next_fragment_id = add_i32 m.max_fragment_id (pos 1);
      next_version = add_i64 v (pos 1);
    })

  unfoldable pub checkout_version : ℤ → Table → W → Result Manifest
  unfolding read_manifest versions_path get_version
  checkout_version v t w =
      or_read (get_version v t.version_mgr)
        (read_manifest store (versions_path t.table_path) json v w)

  unfoldable pub latest_manifest : Table → W → Result Manifest
  unfolding latest_version checkout_version
  latest_manifest t w = do
    v ← latest_version store (versions_path t.table_path) sort w
    checkout_version v t w

  unfoldable pub num_fragments : Table → W → Result ℕ
  unfolding latest_manifest
  num_fragments t w = do m ← latest_manifest t w; ok (length m.fragments)

  unfoldable pub num_rows : Table → W → Result ℤ
  unfolding latest_manifest sum_rows
  num_rows t w = do m ← latest_manifest t w; ok (sum_rows (pos 0) m.fragments)
