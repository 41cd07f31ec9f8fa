-- ===== src/Examples/Async.antt =====
-- The goroutine of a writer with an accumulated batch, on a disk in memory.
use golance_db.Prelude.{◌≡◌, refl, false, List, [], ◌∷◌, none, some, ok}
use golance_db.Prelude.Int.{ℤ, pos, ltb_ℤ}
use golance_db.Prelude.Sort.{Sorter, insertion_sorter}
use golance_db.Encode.Types.{DataType, CompressionType}
use golance_db.Encode.Types.Column.{int64s}
use golance_db.Table.Types.{Field, Children, Schema}
use golance_db.Table.FragmentWriter.{RecordBatch}
use golance_db.Table.AsyncWriter.{AsyncWriter, flush, accumulate}
use golance_db.Table.AsyncWriter.Flushing.{flush-FlushLeaves, FlushLeaves}
use golance_db.Examples.Stores.{json_of}
use golance_db.Examples.Disk.{disk_store}
use golance_db.Examples.Encode.{marking}

abbrev schema : Schema
schema = record {
  fields = Field.field (pos 0) (b'a' ∷ []) DataType.int64 false (pos 0) Children.nil [] ∷ [];
}

abbrev batch : RecordBatch
batch = record { schema = schema; columns = (pos 0, int64s (pos 20 ∷ [])) ∷ []; num_rows = pos 1 }

abbrev new_writer : AsyncWriter
new_writer = record {
  versions = (b'v' ∷ []) ∷ [];
  schema = schema;
  table_path = (b't' ∷ []) ∷ [];
  compression = CompressionType.none;
  batches = [];
  results = [];
  max_batch_size = pos 0;
  current_batch = none;
  current_rows = pos 0;
  fragment_id = pos 0;
  next_version = pos 1;
}

abbrev filled : AsyncWriter
filled = record new_writer { current_batch = some batch; current_rows = pos 1 }

accumulate_run : accumulate batch new_writer ≡ (ok tt, filled)
unfolding accumulate golance_db.Prelude.Int.ℤ_discrete golance_db.Table.FragmentWriter.column_of
    golance_db.Prelude.Dict.get golance_db.Table.FragmentWriter.set_column
    golance_db.Prelude.Int.◌+ℤ◌ golance_db.Prelude.Dict.put
accumulate_run = refl

abbrev by_version : Sorter ℤ ltb_ℤ
by_version = insertion_sorter ltb_ℤ

flush-FlushLeaves_example :
    FlushLeaves filled (flush (json_of []) disk_store by_version marking ([], filled))
flush-FlushLeaves_example = flush-FlushLeaves (json_of []) disk_store by_version marking [] filled
