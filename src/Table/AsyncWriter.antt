-- ===== src/Table/AsyncWriter.antt =====
-- The background goroutine of table/async_writer.go: what it accumulates and how it flushes. The
-- batches that wait in `batchCh` and the results that wait in `resultCh` are lists, first in first
-- out; the merging of columns is that of Merge.
pub mod Flushing
use golance_db.Prelude.{
  ℕ, ◌==◌, Bool, true, false, List, [], ◌∷◌, ◌++◌, Option, none, some, Result, ok, err, panic,
  length, if◌then◌else◌, ltb, Error, ◌&&◌, not,
}
use golance_db.Prelude.Int.{ℤ, pos, add_i32, add_i64, eqb_ℤ, ltb_ℤ}
use golance_db.Prelude.Sort.{Sorter}
use golance_db.Prelude.Stateful.{Io, done, lift, own, modify, on_world, look, ◌>>=◌, ◌>>◌}
use golance_db.Text.{FilePath}
use golance_db.Encode.Types.{Column, CompressionType}
use golance_db.Encode.Compression.{Codec}
use golance_db.Storage.Store.{Store}
use golance_db.Table.Types.{Schema, Fragment, Manifest, new_manifest}
use golance_db.Table.ManifestStore.{ManifestJson, latest_version, read_manifest}
use golance_db.Table.ManifestStore.Updates.{write_manifest}
use golance_db.Table.FragmentWriter.{
  RecordBatch, new_record_batch, set_column, column_of, new_fragment_writer, write_batch, finish,
}
use golance_db.Table.Merge.{merge_column}
use golance_db.Table.Operations.Changes.{with_writer}

pub record FlushResult : Type 0 where
  pub fragment : Option Fragment
  pub manifest : Option Manifest
  pub error : Option Error

-- `versions` is the path of the manifest store.
pub record AsyncWriter : Type 0 where
  pub versions : FilePath
  pub schema : Schema
  pub table_path : FilePath
  pub compression : CompressionType
  pub batches : List RecordBatch
  pub results : List FlushResult
  pub max_batch_size : ℤ
  pub current_batch : Option RecordBatch
  pub current_rows : ℤ
  pub fragment_id : ℤ
  pub next_version : ℤ

abbrev pub default_result_chan_cap : ℕ
default_result_chan_cap = 16

-- A result for which there is no room is dropped.
unfoldable pub send_result : FlushResult → AsyncWriter → AsyncWriter
send_result r w =
    if ltb (length w.results) default_result_chan_cap
    then record w { results = w.results ++ r ∷ [] }
    else w

abbrev pub failed_flush : Error → FlushResult
failed_flush why = record { fragment = none; manifest = none; error = some why }

-- One round of the loop of `accumulate`, by what `mergeColumn` returns
abbrev pub put_merged : ℤ → RecordBatch → Result Column → Result (Unit {0}) × RecordBatch
put_merged id b (ok values) = (ok tt, set_column id values b)
put_merged id b (err why) = (err why, b)
put_merged id b panic = (panic, b)

abbrev pub add_values : ℤ → Column → RecordBatch → Option Column → Result (Unit {0}) × RecordBatch
add_values id values b none = (ok tt, set_column id values b)
add_values id values b (some existing) = put_merged id b (merge_column existing values)

-- The loop of `accumulate` over the columns of a batch
unfoldable pub add_columns : List (ℤ × Column) → Io RecordBatch (Unit {0})
add_columns [] = done tt
add_columns ((id, values) ∷ columns) =
    (λ b. add_values id values b (column_of id b)) >> add_columns columns

-- The batch that is in the making
unfoldable pub started : AsyncWriter → AsyncWriter
unfolding new_record_batch
started w = elim w.current_batch [
  | none ↦ record w {
    current_batch = some (new_record_batch w.schema (pos 0));
    current_rows = pos 0;
  }
  | some b ↦ w
]

abbrev pub current : AsyncWriter → RecordBatch
current w = elim w.current_batch [ none ↦ new_record_batch w.schema (pos 0) | some b ↦ b ]

-- The end of `accumulate`: the rows are counted once all columns are merged.
abbrev pub counted :
    ℤ → AsyncWriter → Result (Unit {0}) × RecordBatch → Result (Unit {0}) × AsyncWriter
counted rows w (ok u, b) = (
  ok tt,
  record w {
    current_batch = some (record b { num_rows = add_i64 w.current_rows rows });
    current_rows = add_i64 w.current_rows rows;
  },
)
counted rows w (err why, b) = (err why, record w { current_batch = some b })
counted rows w (panic, b) = (panic, record w { current_batch = some b })

unfoldable pub accumulate : RecordBatch → Io AsyncWriter (Unit {0})
unfolding add_columns started
accumulate batch w =
    counted batch.num_rows (started w) (add_columns batch.columns (current (started w)))

-- What follows an `accumulate` in `drainPending`: an error is sent as a result and ends it.
abbrev pub drained :
    List RecordBatch → (AsyncWriter → AsyncWriter) → Result (Unit {0}) × AsyncWriter → AsyncWriter
drained batches rest (ok u, w) = rest w
drained batches rest (err why, w) = send_result (failed_flush why) (record w { batches = batches })
drained batches rest (panic, w) = record w { batches = batches }

unfoldable pub drain : List RecordBatch → AsyncWriter → AsyncWriter
unfolding accumulate send_result
drain [] w = record w { batches = [] }
drain (batch ∷ batches) w = drained batches (drain batches) (accumulate batch w)

-- `drainPending`
abbrev pub drain_pending : AsyncWriter → AsyncWriter
drain_pending w = drain w.batches w

-- The greater of two ids of fragments, as the new manifest takes it
abbrev pub max_fragment : ℤ → ℤ → ℤ
max_fragment id before = if ltb_ℤ before id then id else before

-- The manifest of a flush, by the fragments before it and their greatest id
abbrev pub flushed_manifest : AsyncWriter → List Fragment → ℤ → Manifest
flushed_manifest w fragments max_fragment_id = record (new_manifest w.next_version w.schema) {
  fragments = fragments;
  max_fragment_id = max_fragment_id;
}

unfoldable pub flushed : Fragment → Manifest → AsyncWriter → AsyncWriter
unfolding send_result
flushed frag m w =
    send_result (record { fragment = some frag; manifest = some m; error = none })
      (record w {
        next_version = add_i64 w.next_version (pos 1);
        current_batch = none;
        current_rows = pos 0;
      })

-- What wakes the goroutine: a batch, a call of `Flush`, the close signal or the end of the context,
-- and the timer
pub data Event : Type 0 where
  batch_ready flush_asked closing tick : Event

module _ {W : Type 0} (json : ManifestJson) (store : Store W) (sort : Sorter ℤ ltb_ℤ) where
  -- Where no version can be listed, the fragment is the first one.
  abbrev pub appended : AsyncWriter → Fragment → Result ℤ → W → Result Manifest
  appended w frag (err why) v = ok (flushed_manifest w (frag ∷ []) frag.id)
  appended w frag panic v = panic
  appended w frag (ok latest) v =
      golance_db.Prelude.◌>>=◌ (read_manifest store w.versions json latest v) (λ m.
        ok (flushed_manifest w (m.fragments ++ frag ∷ []) (max_fragment frag.id m.max_fragment_id)))

  abbrev pub next_fragment : AsyncWriter → AsyncWriter
  next_fragment w = record w { fragment_id = add_i32 w.fragment_id (pos 1) }

  -- `flush` of some rows
  unfoldable pub flush_batch : Codec → RecordBatch → Io (W × AsyncWriter) (Unit {0})
  unfolding write_batch new_fragment_writer finish latest_version write_manifest flushed
  flush_batch c batch = do
    w ← own
    fw ←
        with_writer (write_batch c store batch.columns)
          (new_fragment_writer w.schema w.fragment_id w.table_path w.compression)
    modify next_fragment
    m ← on_world (look (λ v. appended w (finish fw) (latest_version store w.versions sort v) v))
    on_world (write_manifest store w.versions json m)
    modify (flushed (finish fw) m)

  -- By the batch in the making, and whether it has no rows
  abbrev pub flush_if : Codec → Option RecordBatch → Bool → Io (W × AsyncWriter) (Unit {0})
  flush_if c none no_rows = done tt
  flush_if c (some batch) true = done tt
  flush_if c (some batch) false = flush_batch c batch

  -- `flush`, which does nothing without a batch or without rows
  unfoldable pub flush : Codec → Io (W × AsyncWriter) (Unit {0})
  unfolding flush_batch
  flush c = do w ← own; flush_if c w.current_batch (eqb_ℤ w.current_rows (pos 0))

  -- An error is sent as a result.
  abbrev pub reported :
      Result (Unit {0}) × (W × AsyncWriter) → Result (Unit {0}) × (W × AsyncWriter)
  reported (err why, (v, w)) = (ok tt, (v, send_result (failed_flush why) w))
  reported (ok u, s) = (ok u, s)
  reported (panic, s) = (panic, s)

  -- The timer's flush, of which the error is dropped
  abbrev pub unreported :
      Result (Unit {0}) × (W × AsyncWriter) → Result (Unit {0}) × (W × AsyncWriter)
  unreported (err why, s) = (ok tt, s)
  unreported (ok u, s) = (ok u, s)
  unreported (panic, s) = (panic, s)

  -- Whether there are as many rows as a fragment takes
  abbrev pub is_full : AsyncWriter → Bool
  is_full w = ltb_ℤ (pos 0) w.max_batch_size && not (ltb_ℤ w.current_rows w.max_batch_size)

  -- A batch that came out of `batchCh`, in `run`
  abbrev pub received :
      Codec → W → Result (Unit {0}) × AsyncWriter → Result (Unit {0}) × (W × AsyncWriter)
  received c v (ok u, w) = if is_full w then reported (flush c (v, w)) else (ok tt, (v, w))
  received c v (err why, w) = (ok tt, (v, send_result (failed_flush why) w))
  received c v (panic, w) = (panic, (v, w))

  -- The cases of the `select` of `run`. The result is what `Flush` and `Close` are told.
  unfoldable pub handle : Codec → Event → Io (W × AsyncWriter) (Unit {0})
  unfolding accumulate drain flush send_result
  handle c batch_ready (v, w) = elim w.batches [
    | [] ↦ (ok tt, (v, w))
    | batch ∷ batches ↦ received c v (accumulate batch (record w { batches = batches }))
  ]
  handle c flush_asked (v, w) = flush c (v, drain_pending w)
  handle c closing (v, w) = flush c (v, drain_pending w)
  handle c tick (v, w) =
      if ltb_ℤ (pos 0) w.current_rows then unreported (flush c (v, w)) else (ok tt, (v, w))
