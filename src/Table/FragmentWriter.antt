-- ===== src/Table/FragmentWriter.antt =====
-- table/fragment_writer.go: the columns of a fragment are encoded and written to a file each. The
-- state of a call is what is stored, with the writer.
pub mod Columns
pub mod RoundTrip
pub mod WholeBatch
use golance_db.Prelude.{
  ℕ, ◌/◌, Bool, List, [], ◌∷◌, ◌++◌, Option, none, some, Result, ok, err, length, if◌then◌else◌,
  ltb, type_mismatch, unsupported_type, bad_dimension, field_not_found,
}
use golance_db.Prelude.Int.{ℤ, pos, negsuc, ltb_ℤ, ℤ_discrete, pos_part}
use golance_db.Prelude.Dict
use golance_db.Prelude.Stateful.{Io, done, lift, look, on_world, modify, ◌>>=◌, ◌>>◌}
use golance_db.Bytes.{Bytes}
use golance_db.Text.{FilePath, join, format_int}
use golance_db.Storage.Store.{Store}
use golance_db.Encode.Types.{DataType, Column, CompressionType}
use golance_db.Encode.Types.Column.{
  int8s, int16s, int32s, int64s, float32s, float64s, strings, binaries,
}
use golance_db.Encode.Compression.{Codec}
use golance_db.Encode.MiniBlock.{MiniBlockEncoder, new_mini_block_encoder, encode}
use golance_db.Table.Types.{
  Field, Schema, DataFile, Fragment, type_of, dimension_of, field_by_id, new_fragment,
}

-- `RecordBatch`; its map of columns is in the order in which a walk happens to take it.
pub record RecordBatch : Type 0 where
  pub schema : Schema
  pub columns : List (ℤ × Column)
  pub num_rows : ℤ

unfoldable pub new_record_batch : Schema → ℤ → RecordBatch
new_record_batch schema num_rows = record { schema = schema; columns = []; num_rows = num_rows }

unfoldable pub set_column : ℤ → Column → RecordBatch → RecordBatch
set_column column_id values b = record b {
  columns = Dict.put ℤ_discrete column_id values b.columns;
}

-- `Column`, which is nil where the column is not set
unfoldable pub column_of : ℤ → RecordBatch → Option Column
column_of column_id b = Dict.get ℤ_discrete column_id b.columns

pub record FragmentWriter : Type 0 where
  pub schema : Schema
  pub fragment_id : ℤ
  pub base_path : FilePath
  pub compression : CompressionType
  pub encoder : MiniBlockEncoder
  pub data_files : List DataFile
  pub num_rows : ℤ

-- The directory "f%d" below "data"
unfoldable pub fragment_path : FilePath → ℤ → FilePath
fragment_path table_path fragment_id =
    join (join table_path (b'd' ∷ b'a' ∷ b't' ∷ b'a' ∷ [])) (b'f' ∷ format_int fragment_id)

unfoldable pub new_fragment_writer : Schema → ℤ → FilePath → CompressionType → FragmentWriter
unfolding fragment_path
new_fragment_writer schema fragment_id table_path compression = record {
  schema = schema;
  fragment_id = fragment_id;
  base_path = fragment_path table_path fragment_id;
  compression = compression;
  encoder = new_mini_block_encoder compression;
  data_files = [];
  num_rows = pos 0;
}

-- The row count of a vector column
abbrev pub vector_rows : ℕ → ℤ → Result ℤ
vector_rows n dimension =
    if ltb_ℤ (pos 0) dimension then ok (pos (n / pos_part dimension)) else err bad_dimension

unfoldable pub typed_rows : DataType → ℤ → Column → Result ℤ
typed_rows DataType.int8 dim (int8s d) = ok (pos (length d))
typed_rows DataType.int16 dim (int16s d) = ok (pos (length d))
typed_rows DataType.int32 dim (int32s d) = ok (pos (length d))
typed_rows DataType.int64 dim (int64s d) = ok (pos (length d))
typed_rows DataType.float32 dim (float32s d) = ok (pos (length d))
typed_rows DataType.float64 dim (float64s d) = ok (pos (length d))
typed_rows DataType.string dim (strings d) = ok (pos (length d))
typed_rows DataType.binary dim (binaries d) = ok (pos (length d))
typed_rows DataType.fixed_size_list dim (float32s d) = vector_rows (length d) dim
typed_rows DataType.float16 dim d = err unsupported_type
typed_rows DataType.struct dim d = err unsupported_type
typed_rows DataType.list dim d = err unsupported_type
typed_rows DataType.dict dim d = err unsupported_type
typed_rows (DataType.unknown t) dim d = err unsupported_type
typed_rows t dim d = err type_mismatch

unfoldable pub infer_num_rows : Column → Field → Result ℤ
unfolding typed_rows
infer_num_rows values f = typed_rows (type_of f) (dimension_of f) values

-- "col_%d.lance"
unfoldable pub column_path : FilePath → ℤ → FilePath
column_path base column_id = join base (
    b'c'
    ∷ b'o'
    ∷ b'l'
    ∷ b'_'
    ∷ (format_int column_id ++ b'.' ∷ b'l' ∷ b'a' ∷ b'n' ∷ b'c' ∷ b'e' ∷ []))

-- What `WriteColumn` does to the writer once the file is written
unfoldable pub add_file : FilePath → ℤ → ℤ → ℤ → FragmentWriter → FragmentWriter
add_file path column_id rows size fw = record fw {
  data_files =
      fw.data_files
      ++ record { path = path; column_id = column_id; num_rows = rows; file_size = size } ∷ [];
  num_rows = if ltb_ℤ fw.num_rows rows then rows else fw.num_rows;
}

-- A nil pointer is an error here.
abbrev pub found : Option Field → Result Field
found none = err field_not_found
found (some f) = ok f

module _ {W : Type 0} (c : Codec) (store : Store W) where
  unfoldable pub write_column : ℤ → Column → Io (W × FragmentWriter) (Unit {0})
  unfolding column_path infer_num_rows add_file
  write_column column_id values (w, fw) =
      (do
        f ← lift (found (field_by_id fw.schema column_id))
        encoded ← lift (encode c fw.encoder values (type_of f))
        let path = column_path fw.base_path column_id
        on_world (store.write path encoded)
        size ← on_world (look (store.size path))
        rows ← lift (infer_num_rows values f)
        modify (add_file path column_id rows size))
        (w, fw)

  -- `WriteBatch`, the loop over the columns
  unfoldable pub write_batch : List (ℤ × Column) → Io (W × FragmentWriter) (Unit {0})
  unfolding write_column
  write_batch [] = done tt
  write_batch ((column_id, values) ∷ columns) = do
    write_column column_id values
    write_batch columns

unfoldable pub finish : FragmentWriter → Fragment
unfolding new_fragment
finish fw = record (new_fragment fw.fragment_id) {
  num_rows = fw.num_rows;
  physical_rows = fw.num_rows;
  data_files = [] ++ fw.data_files;
}
