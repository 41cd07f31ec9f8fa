-- ===== src/Examples/Tables.antt =====
-- A table with a column of ages, on a disk in memory.
use golance_db.Prelude.{
  ℕ, suc, zero, ◌<◌, ◌^◌, ◌≡◌, ◌≢◌, refl, sym, ap, ◌∙◌, Bool, true, false, List, [], ◌∷◌, ◌++◌,
  Option, none, some, Result, ok, ok-injective, some-injective, err, All, arith, length, inl, inr,
}
use golance_db.Prelude.Int.{ℤ, pos, negsuc, ℤ_discrete, ltb_ℤ, IsInt64, pos_part}
use golance_db.Prelude.Sort.{Sorter, insertion_sorter}
use golance_db.Prelude.Dict.{keys, Distinct}
use golance_db.Bytes.{Bytes}
use mathlib.Core.Path.{subst}
use golance_db.Text.{FilePath}
use golance_db.Encode.Types.{DataType, CompressionType, Column}
use golance_db.Encode.Types.Column.{int64s}
use golance_db.Encode.Serialize.{serialize}
use golance_db.Encode.Serialize.RoundTrip.{Fits}
use golance_db.Table.Types.{
  Field, Children, Schema, Fragment, DataFile, Manifest, field_by_id, name_of, has_field, type_of,
  with_id,
}
use golance_db.Table.VersionManager.{VersionManager, latest, publish}
use golance_db.Table.VersionManager.Publish.{IsCache}
use golance_db.Table.FragmentWriter.{
  FragmentWriter, RecordBatch, new_fragment_writer, write_batch, finish, fragment_path, column_path,
}
use golance_db.Table.FragmentWriter.RoundTrip.{read_column-write_batch, IsStorable, reader}
use golance_db.Table.Columns.{extended_schema, reduced_schema, max_id}
use golance_db.Table.Columns.Fresh.{
  field_by_id-extended_schema, reduced_schema-extended_schema, next_id,
}
use golance_db.Query.Reader.{read_column, read_batch}
use golance_db.Table.FragmentWriter.WholeBatch.{read_batch-write_batch}
use golance_db.Table.ManifestStore.{manifest_path, read_manifest}
use golance_db.Table.Operations.{Table, versions_path}
use golance_db.Table.Operations.Changes.{batch_insert, manifest_of, merged_batch}
use golance_db.Table.Operations.Inserted.{batch_insert_sound}
use golance_db.Table.Operations.Failed.{batch_insert_failed, AllOrNothing}
use golance_db.Query.Reader.{new_fragment_reader}
use golance_db.Examples.Stores.{json_of, json_of-Survives, manifest_discrete}
use mathlib.Core.Logic.{if_pos}
use golance_db.Examples.Disk.{Disk, disk_store, disk_content, disk_laws}
use golance_db.Examples.Encode.{marking, marking-CodecLaws}
use native.Mathlib.Decide.{ℕ_discrete}

abbrev age_field : Field
age_field = Field.field (pos 0) (b'a' ∷ []) DataType.int64 false (pos 0) Children.nil []

abbrev schema : Schema
schema = record { fields = age_field ∷ [] }

abbrev ages : List (ℤ × Column)
ages = (pos 0, int64s (pos 20 ∷ pos 30 ∷ [])) ∷ []

abbrev home : FilePath
home = (b't' ∷ []) ∷ []

-- The page of the column: one block, behind its header
abbrev ages_page : Bytes
ages_page =
    1 ∷ 0 ∷ 0 ∷ 0 ∷ 1 ∷ 0 ∷ 0 ∷ 0 ∷ 0 ∷ 16 ∷ 0 ∷ 0 ∷ 16 ∷ 0 ∷ 0 ∷ 0 ∷ 20 ∷ 0 ∷ 0 ∷ 0 ∷ 0 ∷ 0 ∷ 0 ∷ 0
    ∷ 30 ∷ 0 ∷ 0 ∷ 0 ∷ 0 ∷ 0 ∷ 0 ∷ 0 ∷ []

abbrev ages_path : FilePath
ages_path = column_path (fragment_path home (pos 0)) (pos 0)

abbrev ages_file : DataFile
ages_file = record { path = ages_path; column_id = pos 0; num_rows = pos 2; file_size = pos 32 }

abbrev first_writer : FragmentWriter
first_writer = new_fragment_writer schema (pos 0) home CompressionType.none

abbrev after_ages : FragmentWriter
after_ages = record first_writer { data_files = ages_file ∷ []; num_rows = pos 2 }

write_run :
    write_batch marking disk_store ages ([], first_writer)
    ≡ (ok tt, ((ages_path, ages_page) ∷ [], after_ages))
unfolding write_batch field_by_id golance_db.Table.Types.find_field new_fragment_writer
    golance_db.Encode.MiniBlock.encode serialize golance_db.Encode.MiniBlock.write_blocks
    golance_db.Encode.MiniBlock.split_blocks golance_db.Encode.MiniBlock.split_loop
    golance_db.Encode.Serialize.serialize_int64 golance_db.Encode.Serialize.put_words
    golance_db.Encode.Compression.compress golance_db.Storage.LocalFs.local_fs
    golance_db.Text.format_int
write_run = refl

ages_short :
    (buf : Bytes)
    → serialize (int64s (pos 20 ∷ pos 30 ∷ [])) DataType.int64 ≡ ok buf
    → length buf < 2 ^ 31
unfolding serialize golance_db.Encode.Serialize.serialize_int64
    golance_db.Encode.Serialize.put_words
ages_short buf h = subst (λ (b : Bytes). length b < 2 ^ 31) (ok-injective h) (omega arith)

storable_as :
    (f : Field)
    → f ≡ age_field
    → Fits (type_of f) (int64s (pos 20 ∷ pos 30 ∷ []))
      × ((buf : Bytes)
          → serialize (int64s (pos 20 ∷ pos 30 ∷ [])) (type_of f) ≡ ok buf
          → length buf < 2 ^ 31)
storable_as f e =
    subst
      (λ (g : Field).
        Fits (type_of g) (int64s (pos 20 ∷ pos 30 ∷ []))
        × ((buf : Bytes)
            → serialize (int64s (pos 20 ∷ pos 30 ∷ [])) (type_of g) ≡ ok buf
            → length buf < 2 ^ 31))
      (sym e) (omega arith, ages_short)

ages-IsStorable : All (IsStorable schema) ages
unfolding field_by_id golance_db.Table.Types.find_field
ages-IsStorable = ((λ f known. storable_as f (some-injective (sym known))), tt)

read_column-write_batch_example :
    All
      (λ column.
        read_column marking
          (reader marking marking-CodecLaws disk_store disk_content disk_laws schema
            (pos 0)
            home
            CompressionType.none
            ((ages_path, ages_page) ∷ []))
          (finish after_ages)
          column.0
        ≡ ok column.1)
      ages
read_column-write_batch_example =
    read_column-write_batch marking marking-CodecLaws disk_store disk_content disk_laws schema
      (pos 0) home CompressionType.none ages [] ((ages_path, ages_page) ∷ []) after_ages
      (omega arith) (tt, tt) ages-IsStorable write_run

read_batch-write_batch_example :
    read_batch marking
      (reader marking marking-CodecLaws disk_store disk_content disk_laws schema
        (pos 0)
        home
        CompressionType.none
        ((ages_path, ages_page) ∷ []))
      (finish after_ages)
      (keys ages)
    ≡ ok (record { schema = schema; columns = ages; num_rows = pos 2 })
read_batch-write_batch_example =
    read_batch-write_batch marking marking-CodecLaws disk_store disk_content disk_laws schema
      (pos 0) home CompressionType.none ages [] ((ages_path, ages_page) ∷ []) after_ages
      (omega arith) (tt, tt) ages-IsStorable write_run

abbrev new_field : Field
new_field = Field.field (pos 7) (b'b' ∷ []) DataType.string true (pos 0) Children.nil []

abbrev by_version : Sorter ℤ ltb_ℤ
by_version = insertion_sorter ltb_ℤ

abbrev first_version : Manifest
first_version = manifest_of (pos 1) schema [] (pos 0) (pos 5)

abbrev ages_fragment : Fragment
ages_fragment = record {
  id = pos 0;
  num_rows = pos 2;
  data_files = ages_file ∷ [];
  deletion_file = none;
  physical_rows = pos 2;
}

abbrev second_version : Manifest
second_version = manifest_of (pos 2) schema (ages_fragment ∷ []) (pos 0) (pos 6)

abbrev cache : VersionManager
cache = record {
  manifests = (pos 1, first_version) ∷ [];
  latest_version = pos 1;
  max_versions = pos 10;
}

cache-IsCache : IsCache cache
unfolding golance_db.Prelude.Dict.get golance_db.Table.Types.new_manifest
cache-IsCache = inr (record {
  distinct = (tt, tt);
  bounds = (omega arith, tt);
  current = (first_version, if_pos (ℤ_discrete (pos 1) (pos 1)) refl _ _);
})

abbrev people : Table
people = record {
  name = b'p' ∷ [];
  table_path = home;
  schema = schema;
  version_mgr = cache;
  compression = CompressionType.none;
  next_fragment_id = pos 0;
  next_version = pos 2;
}

abbrev grown : Table
grown = record people {
  version_mgr = publish by_version second_version cache;
  next_fragment_id = pos 1;
  next_version = pos 3;
}

abbrev batch : RecordBatch
batch = record { schema = schema; columns = ages; num_rows = pos 2 }

abbrev grown_disk : Disk
grown_disk = (manifest_path (versions_path home) (pos 2), 0 ∷ []) ∷ (ages_path, ages_page) ∷ []

merged : merged_batch (λ i. true) (batch ∷ []) ≡ ok batch
unfolding merged_batch
merged = refl

insert_run :
    batch_insert
      (json_of (second_version ∷ []))
      disk_store
      by_version
      marking
      (pos 6)
      (λ i. true)
      (batch ∷ [])
      ([], people)
    ≡ (ok ages_fragment, (grown_disk, grown))
unfolding batch_insert field_by_id golance_db.Table.Types.find_field
    golance_db.Encode.MiniBlock.encode serialize golance_db.Encode.MiniBlock.write_blocks
    golance_db.Encode.MiniBlock.split_blocks golance_db.Encode.MiniBlock.split_loop
    golance_db.Encode.Serialize.serialize_int64 golance_db.Encode.Serialize.put_words
    golance_db.Encode.Compression.compress golance_db.Storage.LocalFs.local_fs
    golance_db.Text.format_int latest golance_db.Prelude.Dict.get ℤ_discrete ℕ_discrete
    manifest_discrete golance_db.Table.Types.new_manifest golance_db.Prelude.Int.◌+ℤ◌
insert_run = refl

batch_insert_sound_example :
    (last : Manifest) × (latest cache ≡ some last)
    × (latest grown.version_mgr
        ≡ some (manifest_of (pos 2) schema (last.fragments ++ ages_fragment ∷ []) (pos 0) (pos 6)))
    × (read_manifest disk_store
          (versions_path home)
          (json_of (second_version ∷ []))
          (pos 2)
          grown_disk
        ≡ ok (manifest_of (pos 2) schema (last.fragments ++ ages_fragment ∷ []) (pos 0) (pos 6)))
    × (grown.schema ≡ schema)
    × All
        (λ column.
          read_column marking
            (new_fragment_reader
              (λ path offset size. disk_store.read path offset size grown_disk)
              schema
              CompressionType.none)
            ages_fragment
            column.0
          ≡ ok column.1)
        ages
batch_insert_sound_example =
    batch_insert_sound (json_of (second_version ∷ [])) disk_store by_version marking (pos 6)
      (λ i. true) disk_content disk_laws marking-CodecLaws (batch ∷ []) batch [] grown_disk people
      grown ages_fragment 10 merged cache-IsCache refl (omega arith) (omega arith) refl
      (omega arith) (tt, tt) ages-IsStorable (λ last e. json_of-Survives (second_version ∷ []) _)
      insert_run

-- A batch with a column that the schema does not know: nothing changes.
batch_insert_failed_example : AllOrNothing people (
    batch_insert
      (json_of [])
      disk_store
      by_version
      marking
      (pos 6)
      (λ i. true)
      (record { schema = schema; columns = (pos 9, int64s []) ∷ []; num_rows = pos 0 } ∷ [])
      ([], people))
batch_insert_failed_example =
    batch_insert_failed (json_of []) disk_store by_version (pos 6) marking (λ i. true)
      (record { schema = schema; columns = (pos 9, int64s []) ∷ []; num_rows = pos 0 } ∷ []) []
      people

field_by_id-extended_schema_example :
    (field_by_id (extended_schema new_field schema) (next_id schema)
      ≡ some (with_id (next_id schema) new_field))
    × (field_by_id schema (next_id schema) ≡ none)
    × ((id : ℤ) (f : Field)
        → field_by_id schema id ≡ some f
        → field_by_id (extended_schema new_field schema) id ≡ some f)
unfolding max_id
field_by_id-extended_schema_example = field_by_id-extended_schema new_field schema (omega arith)

absent : has_field schema (name_of new_field) ≡ false
unfolding has_field golance_db.Table.Types.field_by_name golance_db.Table.Types.find_field
absent = refl

reduced_schema-extended_schema_example :
    reduced_schema (name_of new_field) (extended_schema new_field schema) ≡ schema
reduced_schema-extended_schema_example = reduced_schema-extended_schema new_field schema absent
