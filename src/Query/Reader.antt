-- ===== src/Query/Reader.antt =====
-- table/fragment_reader.go: how a column of a fragment is read. What `Store.Read` returns for a
-- path, an offset and a size is a parameter; the store does not change during a query.
use golance_db.Prelude.{
  List, [], ◌∷◌, Option, none, some, Result, ok, err, ◌>>=◌, if◌then◌else◌, field_not_found,
  data_file_not_found,
}
use golance_db.Prelude.Int.{ℤ, pos, ltb_ℤ, eqb_ℤ}
use golance_db.Bytes.{Bytes}
use golance_db.Text.{FilePath}
use golance_db.Encode.Types.{Column, CompressionType}
use golance_db.Encode.Compression.{Codec}
use golance_db.Encode.MiniBlock.{MiniBlockEncoder, new_mini_block_encoder, decode}
use golance_db.Table.Types.{type_of, Schema, field_by_id, Fragment, DataFile}
use golance_db.Table.FragmentWriter.{RecordBatch, new_record_batch, set_column}

pub record FragmentReader : Type 0 where
  pub read : FilePath → ℤ → ℤ → Result Bytes
  pub schema : Schema
  pub encoder : MiniBlockEncoder

-- `NewFragmentReader`
abbrev pub new_fragment_reader :
    (FilePath → ℤ → ℤ → Result Bytes) → Schema → CompressionType → FragmentReader
new_fragment_reader read schema compression = record {
  read = read;
  schema = schema;
  encoder = new_mini_block_encoder compression;
}

-- The loop of `findDataFile`
unfoldable pub find_data_file : List DataFile → ℤ → Option DataFile
find_data_file [] column_id = none
find_data_file (df ∷ dfs) column_id =
    if eqb_ℤ df.column_id column_id then some df else find_data_file dfs column_id

-- A nil pointer is an error here.
abbrev pub found {ℓ} : {A : Type ℓ} → Option A → Result A → Result A
found (some a) e = ok a
found none e = e

unfoldable pub read_column : Codec → FragmentReader → Fragment → ℤ → Result Column
unfolding find_data_file field_by_id decode
read_column c r fragment column_id = do
  field ← found (field_by_id r.schema column_id) (err field_not_found)
  df ← found (find_data_file fragment.data_files column_id) (err data_file_not_found)
  bytes ← r.read df.path (pos 0) df.file_size
  decode c r.encoder bytes (type_of field) df.num_rows

-- `numRows := frag.NumRows; if frag.PhysicalRows > 0 { numRows = frag.PhysicalRows }`
abbrev pub row_count : Fragment → ℤ
row_count frag = if ltb_ℤ (pos 0) frag.physical_rows then frag.physical_rows else frag.num_rows

-- `numRows` of `ReadBatch`, where a count that is not zero is taken as it is
abbrev pub batch_rows : Fragment → ℤ
batch_rows frag = if eqb_ℤ frag.physical_rows (pos 0) then frag.num_rows else frag.physical_rows

-- The loop of `ReadBatch`
unfoldable pub read_columns :
    Codec → FragmentReader → Fragment → List ℤ → RecordBatch → Result RecordBatch
unfolding read_column
read_columns c r fragment [] batch = ok batch
read_columns c r fragment (id ∷ ids) batch = do
  column ← read_column c r fragment id
  read_columns c r fragment ids (set_column id column batch)

unfoldable pub read_batch : Codec → FragmentReader → Fragment → List ℤ → Result RecordBatch
unfolding read_columns
read_batch c r fragment ids =
    read_columns c r fragment ids (new_record_batch r.schema (batch_rows fragment))
