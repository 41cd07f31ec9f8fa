-- ===== src/Table/Merge.antt =====
-- `mergeColumn` and `mergeRecordBatches` of table/async_writer.go.
use golance_db.Prelude.{
  ℕ, suc, Bool, List, [], ◌∷◌, ◌++◌, none, some, Result, ok, err, ◌>>=◌, if◌then◌else◌, no_batches,
  schema_mismatch, cannot_merge,
}
use golance_db.Prelude.Int.{ℤ, pos, add_i64}
use golance_db.Encode.Types.{Column}
use golance_db.Encode.Types.Column.{
  int8s, int16s, int32s, int64s, float32s, float64s, strings, binaries,
}
use golance_db.Table.FragmentWriter.{RecordBatch, new_record_batch, set_column, column_of}

unfoldable pub merge_column : Column → Column → Result Column
merge_column (int8s a) (int8s b) = ok (int8s (a ++ b))
merge_column (int16s a) (int16s b) = ok (int16s (a ++ b))
merge_column (int32s a) (int32s b) = ok (int32s (a ++ b))
merge_column (int64s a) (int64s b) = ok (int64s (a ++ b))
merge_column (float32s a) (float32s b) = ok (float32s (a ++ b))
merge_column (float64s a) (float64s b) = ok (float64s (a ++ b))
merge_column (strings a) (strings b) = ok (strings (a ++ b))
merge_column (binaries a) (binaries b) = ok (binaries (a ++ b))
merge_column existing incoming = err cannot_merge

-- The inner loop: the column of the later batches that have it
unfoldable pub merge_later : ℤ → Column → List RecordBatch → Result Column
unfolding merge_column
merge_later id result [] = ok result
merge_later id result (b ∷ bs) = elim (column_of id b) [
  | none ↦ merge_later id result bs
  | some values ↦ (do merged ← merge_column result values; merge_later id merged bs)
]

-- The loop over the columns of the first batch
unfoldable pub merge_columns :
    List RecordBatch → List (ℤ × Column) → RecordBatch → Result RecordBatch
unfolding merge_later
merge_columns later [] merged = ok merged
merge_columns later ((id, values) ∷ columns) merged = do
  result ← merge_later id values later
  merge_columns later columns (set_column id result merged)

-- `same i` is whether the i-th batch points to the schema of the first one; the sum of the rows wraps.
unfoldable pub count_rows : (ℕ → Bool) → ℕ → List RecordBatch → ℤ → Result ℤ
count_rows same i [] total = ok total
count_rows same i (b ∷ bs) total =
    let rest = count_rows same (suc i) bs (add_i64 total b.num_rows) in
    if same i then rest else err schema_mismatch

unfoldable pub merge_record_batches : (ℕ → Bool) → List RecordBatch → Result RecordBatch
unfolding count_rows merge_columns new_record_batch
merge_record_batches same [] = err no_batches
merge_record_batches same (b ∷ []) = ok b
merge_record_batches same (b ∷ d ∷ bs) = do
  total ← count_rows same 0 (b ∷ d ∷ bs) (pos 0)
  merge_columns (d ∷ bs) b.columns (new_record_batch b.schema total)
