-- ===== src/Table/FragmentWriter/RoundTrip.antt =====
-- What table/fragment_writer.go writes is what table/fragment_reader.go reads.
use golance_db.Prelude.{
  ◌≡◌, ◌<◌, ◌^◌, refl, sym, ap, ◌∙◌, List, [], ◌∷◌, Option, none, some, ok, length, All, arith,
}
use golance_db.Prelude.Int.{ℤ, IsInt64}
use golance_db.Prelude.Dict.{keys, Distinct}
use golance_db.Bytes.{Bytes}
use golance_db.Text.{FilePath}
use golance_db.Storage.Store.{Store, StoreLaws}
use golance_db.Encode.Types.{Column, CompressionType}
use golance_db.Encode.Compression.{Codec, CodecLaws}
use golance_db.Encode.Serialize.{serialize}
use golance_db.Encode.Serialize.RoundTrip.{Fits}
use golance_db.Encode.MiniBlock.{new_mini_block_encoder}
use golance_db.Encode.MiniBlock.RoundTrip.{IsUsable, decode-encode}
use golance_db.Table.Types.{Field, Schema, type_of, field_by_id}
use golance_db.Query.Reader.{FragmentReader, read_column, find_data_file, new_fragment_reader}
use golance_db.Table.FragmentWriter.{
  FragmentWriter, column_path, write_batch, finish, new_fragment_writer, fragment_path,
}
use golance_db.Table.FragmentWriter.Columns.{IsWritten, batch-IsWritten, batch_base}

-- A column that the format can hold, at the data type that the schema gives it
abbrev pub IsStorable : Schema → ℤ × Column → Type 0
IsStorable schema (id, values) =
    (f : Field)
    → field_by_id schema id ≡ some f
    → Fits (type_of f) values
      × ((buf : Bytes) → serialize values (type_of f) ≡ ok buf → length buf < 2 ^ 31)

module _ {W : Type 0} (c : Codec) (codec_laws : CodecLaws c) (store : Store W)
    (content : FilePath → W → Option Bytes) (laws : StoreLaws store content) (schema : Schema)
    (fragment_id : ℤ) (table_path : FilePath) (compression : CompressionType) where
  -- A new writer, and a reader of what is stored
  abbrev pub writer : FragmentWriter
  writer = new_fragment_writer schema fragment_id table_path compression

  abbrev pub reader : W → FragmentReader
  reader w =
      new_fragment_reader (λ path offset size. store.read path offset size w) schema compression

  default-IsUsable : IsUsable (new_mini_block_encoder compression)
  default-IsUsable = record { int32 = omega arith; small = omega arith }

  written_read :
      (w : W) (s : W × FragmentWriter) (column : ℤ × Column)
      → IsStorable schema column
      → IsWritten c store content laws writer s column
      → read_column c (reader s.0) (finish s.1) column.0 ≡ ok column.1
  unfolding read_column finish new_fragment_writer
  written_read w s (id, values) storable (f, page, known, made, (df, there, path, size, at)) =
      rw (known, there, path, size, laws.read_lem _ s.0 page at)
        (decode-encode c codec_laws (new_mini_block_encoder compression) default-IsUsable values
          (type_of f) page df.num_rows (storable f known).0 (storable f known).1 made)

  no_files : (ids : List ℤ) → All (λ k. find_data_file writer.data_files k ≡ none) ids
  unfolding find_data_file new_fragment_writer
  no_files [] = tt
  no_files (k ∷ ids) = (refl, no_files ids)

  -- The same, once more has happened to the store, if the files of the columns are as they were
  pub read_column-later :
      (columns : List (ℤ × Column)) (w w' later : W) (fw : FragmentWriter)
      → All IsInt64 (keys columns)
      → Distinct (keys columns)
      → All (IsStorable schema) columns
      → write_batch c store columns (w, writer) ≡ (ok tt, (w', fw))
      → ((id : ℤ)
          → content (column_path (fragment_path table_path fragment_id) id) later
            ≡ content (column_path (fragment_path table_path fragment_id) id) w')
      → All (λ column. read_column c (reader later) (finish fw) column.0 ≡ ok column.1) columns
  unfolding new_fragment_writer
  read_column-later columns w w' later fw ints distinct storable h same =
      all_read columns storable (
        batch-IsWritten c store content laws columns w writer (w', fw) ints distinct
          (no_files (keys columns)) h)
    where
      moved_on :
          (column : ℤ × Column)
          → IsWritten c store content laws writer (w', fw) column
          → IsWritten c store content laws writer (later, fw) column
      moved_on (id, values) (f, page, known, made, (df, there, path, size, at)) =
          let base : fw.base_path ≡ fragment_path table_path fragment_id =
            batch_base c store content laws columns w writer (w', fw) h in
          (
            f,
            page,
            known,
            made,
            (
              df,
              there,
              path,
              size,
              ap (λ b. content (column_path b id) later) base
                  ∙ same id
                  ∙ ap (λ b. content (column_path b id) w') (sym base)
                  ∙ at,
            ),
          )

      all_read :
          (cols : List (ℤ × Column))
          → All (IsStorable schema) cols
          → All (IsWritten c store content laws writer (w', fw)) cols
          → All (λ column. read_column c (reader later) (finish fw) column.0 ≡ ok column.1) cols
      all_read [] p q = tt
      all_read (x ∷ cols) p q =
          (written_read w (later, fw) x p.0 (moved_on x q.0), all_read cols p.1 q.1)

  -- Over a store and a codec that keep their promises, a batch that a new writer wrote without an
  -- error is read back column by column from the fragment that the writer finishes, where the ids
  -- of the columns are distinct int64 and each column fits its field and the format.
  pub read_column-write_batch :
      (columns : List (ℤ × Column)) (w w' : W) (fw : FragmentWriter)
      → All IsInt64 (keys columns)
      → Distinct (keys columns)
      → All (IsStorable schema) columns
      → write_batch c store columns (w, writer) ≡ (ok tt, (w', fw))
      → All (λ column. read_column c (reader w') (finish fw) column.0 ≡ ok column.1) columns
  read_column-write_batch columns w w' fw ints distinct storable h =
      read_column-later columns w w' w' fw ints distinct storable h (λ id. refl)
