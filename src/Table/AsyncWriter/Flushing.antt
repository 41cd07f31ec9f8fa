-- ===== src/Table/AsyncWriter/Flushing.antt =====
-- What a flush leaves of the batch that was accumulated.
use golance_db.Prelude.{
  ◌≡◌, refl, Bool, true, false, Option, none, some, Result, ok, err, panic, inl, inr, ◌⊎◌,
  Bool-cases, length, ltb,
}
use golance_db.Prelude.Int.{ℤ, pos, add_i64, eqb_ℤ, eqb_ℤ→eq, ltb_ℤ}
use golance_db.Prelude.Sort.{Sorter}
use golance_db.Prelude.Stateful.{Io, with_own, resume}
use golance_db.Encode.Compression.{Codec}
use golance_db.Storage.Store.{Store}
use golance_db.Table.Types.{Fragment, Manifest}
use golance_db.Table.ManifestStore.{ManifestJson, latest_version}
use golance_db.Table.ManifestStore.Updates.{write_manifest}
use golance_db.Table.FragmentWriter.{
  RecordBatch, FragmentWriter, new_fragment_writer, write_batch, finish,
}
use golance_db.Table.Operations.Changes.{written}
use golance_db.Table.AsyncWriter.{
  AsyncWriter, send_result, flushed, flush_batch, flush, flush_if, appended, next_fragment,
  default_result_chan_cap,
}

-- All that was accumulated is there still, and the version was not used up.
abbrev pub Retains : AsyncWriter → AsyncWriter → Type 0
Retains w u =
    (u.current_batch ≡ w.current_batch)
    × (u.current_rows ≡ w.current_rows)
    × (u.next_version ≡ w.next_version)
    × (u.batches ≡ w.batches)
    × (u.results ≡ w.results)

-- There was nothing to flush, or it is flushed.
abbrev pub IsFlushed : AsyncWriter → AsyncWriter → Type 0
IsFlushed w u =
    (((w.current_batch ≡ none) ⊎ (w.current_rows ≡ pos 0)) × (u ≡ w))
    ⊎ ((u.current_batch ≡ none)
        × (u.current_rows ≡ pos 0)
        × (u.next_version ≡ add_i64 w.next_version (pos 1))
        × (u.batches ≡ w.batches))

flushed-IsFlushed :
    (frag : Fragment) (m : Manifest) (w u : AsyncWriter)
    → Retains w u
    → IsFlushed w (flushed frag m u)
unfolding flushed send_result
flushed-IsFlushed frag m w u (_, _, version, waiting, _) =
    inr (elim (Bool-cases (ltb (length u.results) default_result_chan_cap)) [
      | inl room ↦ rw room (refl, refl, rw version refl, waiting)
      | inr no_room ↦ rw no_room (refl, refl, rw version refl, waiting)
    ])

module _ {W : Type 0} where
  -- By the result of a flush
  abbrev pub FlushLeaves : AsyncWriter → Result (Unit {0}) × (W × AsyncWriter) → Type 0
  FlushLeaves w (ok u, s) = IsFlushed w s.1
  FlushLeaves w (err why, s) = Retains w s.1
  FlushLeaves w (panic, s) = Retains w s.1

  resume_own :
      {A : Type 0} (w u : AsyncWriter) (p : Result A × W)
      (next : A → Io (W × AsyncWriter) (Unit {0}))
      → Retains w u
      → ((a : A) (v : W) → FlushLeaves w (next a (v, u)))
      → FlushLeaves w (resume next (with_own u p))
  resume_own w u (ok a, v) next same rest = rest a v
  resume_own w u (err why, v) next same rest = same
  resume_own w u (panic, v) next same rest = same

  resume_written :
      (w : AsyncWriter) (p : Result (Unit {0}) × (W × FragmentWriter))
      (next : FragmentWriter → Io (W × AsyncWriter) (Unit {0}))
      → ((fw : FragmentWriter) (v : W) → FlushLeaves w (next fw (v, w)))
      → FlushLeaves w (resume next (written w p))
  resume_written w (ok u, (v, fw)) next rest = rest fw v
  resume_written w (err why, (v, fw)) next rest = (refl, refl, refl, refl, refl)
  resume_written w (panic, (v, fw)) next rest = (refl, refl, refl, refl, refl)

module _ {W : Type 0} (json : ManifestJson) (store : Store W) (sort : Sorter ℤ ltb_ℤ) where
  flush_batch-FlushLeaves :
      (c : Codec) (batch : RecordBatch) (v : W) (w : AsyncWriter)
      → FlushLeaves w (flush_batch json store sort c batch (v, w))
  unfolding flush_batch
  flush_batch-FlushLeaves c batch v w =
      resume_written w
        (write_batch c store batch.columns
          (v, new_fragment_writer w.schema w.fragment_id w.table_path w.compression))
        _
        (λ fw v.
          resume_own w (next_fragment json store sort w)
            (appended json store sort w (finish fw) (latest_version store w.versions sort v) v, v) _
            (refl, refl, refl, refl, refl)
            (λ m v.
              resume_own w (next_fragment json store sort w)
                (write_manifest store w.versions json m v) _ (refl, refl, refl, refl, refl)
                (λ u v.
                  flushed-IsFlushed (finish fw) m w (next_fragment json store sort w)
                    (refl, refl, refl, refl, refl))))

  flush_if-FlushLeaves :
      (c : Codec) (v : W) (w : AsyncWriter) (o : Option RecordBatch) (no_rows : Bool)
      → w.current_batch ≡ o
      → eqb_ℤ w.current_rows (pos 0) ≡ no_rows
      → FlushLeaves w (flush_if json store sort c o no_rows (v, w))
  flush_if-FlushLeaves c v w none no_rows e h = inl (inl e, refl)
  flush_if-FlushLeaves c v w (some batch) true e h =
      inl (inr (eqb_ℤ→eq w.current_rows (pos 0) h), refl)
  flush_if-FlushLeaves c v w (some batch) false e h = flush_batch-FlushLeaves c batch v w

  -- However a call of the store or of the codec fails: a flush that does not succeed keeps the batch
  -- that was accumulated, its row count, the number of the next version and both queues. One that
  -- succeeds had nothing to flush and changes nothing, or leaves no batch and moves the version on.
  pub flush-FlushLeaves :
      (c : Codec) (v : W) (w : AsyncWriter) → FlushLeaves w (flush json store sort c (v, w))
  unfolding flush
  flush-FlushLeaves c v w = flush_if-FlushLeaves c v w w.current_batch _ refl refl
