-- ===== src/Table/Operations/Changes.antt =====
-- The operations of table/table.go that change the table. `now` is `time.Now().UnixNano()`.
use golance_db.Prelude.{
  ℕ, Bool, true, List, [], ◌∷◌, ◌++◌, Option, none, some, Result, ok, err, panic, if◌then◌else◌,
  no_batches, no_manifest, field_exists, column_not_found,
}
use golance_db.Prelude.Int.{ℤ, pos, add_i32, add_i64, ltb_ℤ}
use golance_db.Prelude.Sort.{Sorter}
use golance_db.Prelude.Stateful.{Io, done, lift, own, modify, on_world, ◌>>=◌, ◌>>◌}
use golance_db.Bytes.{Bytes}
use golance_db.Text.{FilePath}
use golance_db.Encode.Types.{CompressionType}
use golance_db.Encode.Compression.{Codec}
use golance_db.Storage.Store.{Store}
use golance_db.Table.Types.{Field, Schema, Fragment, Manifest, name_of, has_field, new_manifest}
use golance_db.Table.VersionManager.{publish, latest}
use golance_db.Table.ManifestStore.{ManifestJson}
use golance_db.Table.ManifestStore.Updates.{write_manifest}
use golance_db.Table.FragmentWriter.{
  RecordBatch, FragmentWriter, new_fragment_writer, write_batch, finish,
}
use golance_db.Table.Merge.{merge_record_batches}
use golance_db.Table.Columns.{extended_schema, reduced_schema}
use golance_db.Table.Operations.{Table, new_table, versions_path}

-- The manifest that a change of the table commits
abbrev pub manifest_of : ℤ → Schema → List Fragment → ℤ → ℤ → Manifest
manifest_of version schema fragments max_fragment_id now = record (new_manifest version schema) {
  fragments = fragments;
  max_fragment_id = max_fragment_id;
  timestamp = now;
}

-- `t.versionMgr.Latest()`, where none is an error
abbrev pub cached_latest : Option Manifest → Result Manifest
cached_latest none = err no_manifest
cached_latest (some m) = ok m

-- `batches[0]`, or the merge of several
unfoldable pub merged_batch : (ℕ → Bool) → List RecordBatch → Result RecordBatch
unfolding merge_record_batches
merged_batch same [] = err no_batches
merged_batch same (b ∷ []) = ok b
merged_batch same (b ∷ d ∷ bs) = merge_record_batches same (b ∷ d ∷ bs)

unfoldable pub next_version_up : Table → Table
next_version_up t = record t { next_version = add_i64 t.next_version (pos 1) }

unfoldable pub next_fragment_up : Table → Table
next_fragment_up t = record t { next_fragment_id = add_i32 t.next_fragment_id (pos 1) }

-- A writer of the call's own, which is gone where it fails
abbrev pub written :
    {W X : Type 0} → X → Result (Unit {0}) × (W × FragmentWriter) → Result FragmentWriter × (W × X)
written x (ok u, (w, fw)) = (ok fw, (w, x))
written x (err why, (w, fw)) = (err why, (w, x))
written x (panic, (w, fw)) = (panic, (w, x))

abbrev pub with_writer :
    {W X : Type 0} → Io (W × FragmentWriter) (Unit {0}) → FragmentWriter → Io (W × X) FragmentWriter
with_writer call fw (w, x) = written x (call (w, fw))

module _ {W : Type 0} (json : ManifestJson) (store : Store W) (sort : Sorter ℤ ltb_ℤ) where
  unfoldable pub create : ℤ → Bytes → FilePath → Schema → CompressionType → Io W Table
  unfolding new_table write_manifest versions_path next_version_up
  create now name table_path schema compression =
      let t = new_table name table_path schema compression in
      let m = manifest_of t.next_version schema [] (pos 0) now in
      do
        write_manifest store (versions_path table_path) json m
        done (record (next_version_up t) { version_mgr = publish sort m t.version_mgr })

  -- The end that `BatchInsert`, `AddColumn` and `DropColumn` share: a manifest of the next version
  -- is written, and published with the schema.
  unfoldable pub commit_version :
      ℤ → Schema → (Manifest → List Fragment) → (Manifest → ℤ) → Io (W × Table) (Unit {0})
  unfolding write_manifest versions_path next_version_up
  commit_version now schema fragments max_fragment_id = do
    t ← own
    last ← lift (cached_latest (latest t.version_mgr))
    let m = manifest_of t.next_version schema (fragments last) (max_fragment_id last) now
    modify next_version_up
    on_world (write_manifest store (versions_path t.table_path) json m)
    modify (λ t. record t { schema = schema; version_mgr = publish sort m t.version_mgr })

  unfoldable pub add_column : ℤ → Field → Io (W × Table) (Unit {0})
  unfolding commit_version extended_schema
  add_column now new = do
    t ← own
    lift (if has_field t.schema (name_of new) then err field_exists else ok tt)
    commit_version now (extended_schema new t.schema) (λ m. m.fragments) (λ m. m.max_fragment_id)

  unfoldable pub drop_column : ℤ → Bytes → Io (W × Table) (Unit {0})
  unfolding commit_version reduced_schema
  drop_column now column_name = do
    t ← own
    lift (if has_field t.schema column_name then ok tt else err column_not_found)
    commit_version now (reduced_schema column_name t.schema) (λ m. m.fragments)
        (λ m. m.max_fragment_id)

  -- `same i` is whether the i-th batch points to the schema of the first one.
  unfoldable pub batch_insert : Codec → ℤ → (ℕ → Bool) → List RecordBatch → Io (W × Table) Fragment
  unfolding merged_batch new_fragment_writer write_batch finish next_fragment_up commit_version
  batch_insert c now same batches = do
    batch ← lift (merged_batch same batches)
    t ← own
    fw ←
        with_writer (write_batch c store batch.columns)
          (new_fragment_writer t.schema t.next_fragment_id t.table_path t.compression)
    modify next_fragment_up
    commit_version now t.schema (λ m. m.fragments ++ finish fw ∷ []) (λ _. t.next_fragment_id)
    done (finish fw)

  unfoldable pub insert : Codec → ℤ → RecordBatch → Io (W × Table) Fragment
  unfolding batch_insert
  insert c now batch = batch_insert c now (λ _. true) (batch ∷ [])
