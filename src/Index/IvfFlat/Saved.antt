-- ===== src/Index/IvfFlat/Saved.antt =====
-- `Save` and `Load` of index/ivf_flat.go.
use golance_db.Prelude.{ℕ, ◌≡◌, refl, ap, sym, Bool, false, List, Option, Result, ok, ◌>>=◌, length}
use golance_db.Prelude.Int.{ℤ, pos}
use golance_db.Prelude.Stateful.{Io}
use golance_db.Text.{FilePath}
use golance_db.Bytes.{Bytes}
use mathlib.Core.Path.{subst}
use golance_db.Float.{Arithmetic}
use golance_db.Distance.{DistanceMetric}
use golance_db.Storage.Store.{Store, StoreLaws}
use golance_db.Index.Types.{VectorRecord, IndexType}
use golance_db.Index.Snapshot.{
  SnapshotJson, save_snapshot, load_snapshot, load_snapshot-save_snapshot,
}
use golance_db.Index.IvfFlat.{IvfFlatIndex}
use golance_db.Index.IvfFlat.Build.{Arithmetic32, ivf_build}
use golance_db.Index.IvfFlat.Partitions.{ivf_build_inv}

pub record IvfFlatSnapshot : Type 0 where
  pub centroids : List (List ℕ)
  pub partitions : List (List ℤ)
  pub vectors : List VectorRecord
  pub num_partitions : ℤ
  pub metric : DistanceMetric
  pub dim : ℕ
  pub n_probes : ℤ

abbrev pub ivf_snapshot : IvfFlatIndex → IvfFlatSnapshot
ivf_snapshot idx = record {
  centroids = idx.centroids;
  partitions = idx.partitions;
  vectors = idx.vectors;
  num_partitions = idx.num_partitions;
  metric = idx.metric;
  dim = idx.dim;
  n_probes = idx.n_probes;
}

abbrev pub of_ivf_snapshot : IvfFlatSnapshot → IvfFlatIndex
of_ivf_snapshot s = record {
  centroids = s.centroids;
  partitions = s.partitions;
  vectors = s.vectors;
  num_partitions = s.num_partitions;
  metric = s.metric;
  stats = record {
    num_vectors = pos (length s.vectors);
    num_partitions = s.num_partitions;
    build_time_ms = pos 0;
    index_type = IndexType.ivf_flat;
  };
  dim = s.dim;
  n_probes = s.n_probes;
}

built_whole :
    (m : Arithmetic) (a : Arithmetic32) (draw : ℕ → ℕ → ℕ) (vectors : List VectorRecord)
    (old idx : IvfFlatIndex)
    → ivf_build m a draw false vectors old ≡ ok idx
    → of_ivf_snapshot (ivf_snapshot idx) ≡ idx
built_whole m a draw vectors old idx h =
    let (_, _, _, _, _, _, _, _, _, _, _, e) = ivf_build_inv m a draw false vectors old idx h in
    subst (λ i. of_ivf_snapshot (ivf_snapshot i) ≡ i) (sym e) refl

module _ {W : Type 0} (json : SnapshotJson IvfFlatSnapshot) (store : Store W) where
  unfoldable pub ivf_save : Bool → FilePath → IvfFlatIndex → Io W (Unit {0})
  unfolding save_snapshot
  ivf_save stopped path idx = save_snapshot json store stopped path (ivf_snapshot idx)

  -- `Load` sets every field of the index.
  unfoldable pub ivf_load : Bool → FilePath → W → Result IvfFlatIndex
  unfolding load_snapshot
  ivf_load stopped path w = do s ← load_snapshot json store stopped path w; ok (of_ivf_snapshot s)

  -- Over a store that keeps its promises, an index that was built and saved without an error is
  -- loaded again as it was: partitions, statistics and the number of probes included.
  pub ivf_load-ivf_save :
      (content : FilePath → W → Option Bytes)
      → StoreLaws store content
      → (m : Arithmetic) (a : Arithmetic32) (draw : ℕ → ℕ → ℕ) (vectors : List VectorRecord)
        (old idx : IvfFlatIndex) (path : FilePath) (stopped : Bool) (w w' : W)
      → ivf_build m a draw false vectors old ≡ ok idx
      → ivf_save stopped path idx w ≡ (ok tt, w')
      → ivf_load false path w' ≡ ok idx
  unfolding ivf_load ivf_save
  ivf_load-ivf_save content laws m a draw vectors old idx path stopped w w' built saved =
      rw
        (load_snapshot-save_snapshot json store content laws path (ivf_snapshot idx) stopped w w'
          saved)
        (ap ok (built_whole m a draw vectors old idx built))
