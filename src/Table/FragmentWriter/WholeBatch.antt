-- ===== src/Table/FragmentWriter/WholeBatch.antt =====
-- `ReadBatch` of table/fragment_reader.go on a fragment that table/fragment_writer.go wrote.
use golance_db.Prelude.{
  ◌≡◌, ◌≢◌, refl, sym, ap, ◌∙◌, List, [], ◌∷◌, ◌++◌, Option, ok, All, inl, inr, Bool-cases,
  append_nil,
}
use golance_db.Prelude.Int.{ℤ, pos, IsInt64, ℤ_discrete, eqb_ℤ}
use golance_db.Prelude.Dict.{keys, Distinct}
use golance_db.Prelude.Dict
use golance_db.Bytes.{Bytes}
use golance_db.Text.{FilePath}
use golance_db.Storage.Store.{Store, StoreLaws}
use golance_db.Encode.Types.{Column, CompressionType}
use golance_db.Encode.Compression.{Codec, CodecLaws}
use golance_db.Table.Types.{Schema, Fragment}
use golance_db.Query.Reader.{FragmentReader, read_column, read_columns, read_batch, batch_rows}
use golance_db.Table.FragmentWriter.{
  RecordBatch, FragmentWriter, set_column, new_record_batch, write_batch, finish,
}
use golance_db.Table.FragmentWriter.RoundTrip.{IsStorable, writer, reader, read_column-write_batch}
use mathlib.Core.List.{append_assoc}
use mathlib.Core.Logic.{if_neg}

abbrev IsAbsent : List (ℤ × Column) → ℤ → Type 0
IsAbsent m k = All (λ j. j ≢ k) (keys m)

put_absent :
    (k : ℤ) (v : Column) (m : List (ℤ × Column))
    → IsAbsent m k
    → Dict.put ℤ_discrete k v m ≡ m ++ (k, v) ∷ []
unfolding Dict.put
put_absent k v [] h = refl
put_absent k v ((j, w) ∷ m) h = rw (if_neg _ h.0) (ap (◌∷◌ (j, w)) (put_absent k v m h.1))

IsAbsent-snoc :
    (k j : ℤ) (v : Column) (m : List (ℤ × Column))
    → IsAbsent m j
    → k ≢ j
    → IsAbsent (m ++ (k, v) ∷ []) j
IsAbsent-snoc k j v [] h ne = (ne, tt)
IsAbsent-snoc k j v ((i, w) ∷ m) h ne = (h.0, IsAbsent-snoc k j v m h.1 ne)

all-IsAbsent :
    (k : ℤ) (v : Column) (m : List (ℤ × Column)) (ks : List ℤ)
    → All (IsAbsent m) ks
    → All (λ j. j ≢ k) ks
    → All (IsAbsent (m ++ (k, v) ∷ [])) ks
all-IsAbsent k v m [] h ne = tt
all-IsAbsent k v m (j ∷ ks) h ne =
    (IsAbsent-snoc k j v m h.0 (λ e. ne.0 (sym e)), all-IsAbsent k v m ks h.1 ne.1)

none-IsAbsent : (ks : List ℤ) → All (IsAbsent []) ks
none-IsAbsent [] = tt
none-IsAbsent (k ∷ ks) = (tt, none-IsAbsent ks)

-- The loop sets the columns behind those that the batch has.
read_columns_all :
    (c : Codec) (r : FragmentReader) (frag : Fragment) (columns : List (ℤ × Column))
    (batch : RecordBatch)
    → All (λ column. read_column c r frag column.0 ≡ ok column.1) columns
    → Distinct (keys columns)
    → All (IsAbsent batch.columns) (keys columns)
    → read_columns c r frag (keys columns) batch
      ≡ ok (record batch { columns = batch.columns ++ columns })
unfolding read_columns set_column
read_columns_all c r frag [] batch read d absent =
    ap (λ l. ok (record batch { columns = l })) (sym (append_nil batch.columns))
read_columns_all c r frag ((k, v) ∷ columns) batch read d absent =
    rw (read.0, put_absent k v batch.columns absent.0)
      (read_columns_all c r frag columns (record batch { columns = batch.columns ++ (k, v) ∷ [] })
          read.1 d.1 (all-IsAbsent k v batch.columns (keys columns) absent.1 d.0)
        ∙ ap (λ l. ok (record batch { columns = l }))
            (append_assoc batch.columns ((k, v) ∷ []) columns))

batch_rows-finish : (fw : FragmentWriter) → batch_rows (finish fw) ≡ fw.num_rows
unfolding finish
batch_rows-finish fw = elim (Bool-cases (eqb_ℤ fw.num_rows (pos 0))) [
  | inl e ↦ rw e refl
  | inr e ↦ rw e refl
]

module _ {W : Type 0} (c : Codec) (codec_laws : CodecLaws c) (store : Store W)
    (content : FilePath → W → Option Bytes) (laws : StoreLaws store content) (schema : Schema)
    (fragment_id : ℤ) (table_path : FilePath) (compression : CompressionType) where
  -- Over a store and a codec that keep their promises, the columns that a new writer wrote without
  -- an error, with distinct int64 ids and each fitting its field and the format, are read back
  -- whole: `ReadBatch` of their ids succeeds on the fragment that the writer finishes, with the
  -- columns in that order, the schema, and the writer's row count.
  pub read_batch-write_batch :
      (columns : List (ℤ × Column)) (w w' : W) (fw : FragmentWriter)
      → All IsInt64 (keys columns)
      → Distinct (keys columns)
      → All (IsStorable schema) columns
      → write_batch c store columns
          (w, writer c codec_laws store content laws schema fragment_id table_path compression)
        ≡ (ok tt, (w', fw))
      → read_batch c
          (reader c codec_laws store content laws schema fragment_id table_path compression w')
          (finish fw)
          (keys columns)
        ≡ ok (record { schema = schema; columns = columns; num_rows = fw.num_rows })
  unfolding read_batch new_record_batch
  read_batch-write_batch columns w w' fw ints distinct storable h = rw (batch_rows-finish fw) (
      read_columns_all c
        (reader c codec_laws store content laws schema fragment_id table_path compression w')
        (finish fw) columns (record { schema = schema; columns = []; num_rows = fw.num_rows })
        (read_column-write_batch c codec_laws store content laws schema fragment_id table_path
          compression columns w w' fw ints distinct storable h)
        distinct (none-IsAbsent (keys columns)))
