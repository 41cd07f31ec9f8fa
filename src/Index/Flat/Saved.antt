-- ===== src/Index/Flat/Saved.antt =====
-- `Save` and `Load` of index/flat.go.
use golance_db.Prelude.{
  ℕ, ◌≡◌, refl, ap, Bool, false, List, Option, Result, ok, ◌>>=◌, >>=-eq-ok, ok-injective,
}
use golance_db.Prelude.Stateful.{Io}
use mathlib.Core.Path.{subst}
use golance_db.Bytes.{Bytes}
use golance_db.Text.{FilePath}
use golance_db.Distance.{DistanceMetric}
use golance_db.Storage.Store.{Store, StoreLaws}
use golance_db.Index.Types.{VectorRecord, checked_dim}
use golance_db.Index.Snapshot.{
  SnapshotJson, save_snapshot, load_snapshot, load_snapshot-save_snapshot,
}
use golance_db.Index.Flat.{FlatIndex, flat_stats, flat_build}

pub record FlatSnapshot : Type 0 where
  pub vectors : List VectorRecord
  pub metric : DistanceMetric
  pub dim : ℕ

abbrev pub flat_snapshot : FlatIndex → FlatSnapshot
flat_snapshot idx = record { vectors = idx.vectors; metric = idx.metric; dim = idx.dim }

abbrev pub of_flat_snapshot : FlatSnapshot → FlatIndex
of_flat_snapshot s = record {
  vectors = s.vectors;
  metric = s.metric;
  stats = flat_stats s.vectors;
  dim = s.dim;
}

module _ {W : Type 0} (json : SnapshotJson FlatSnapshot) (store : Store W) where
  unfoldable pub flat_save : Bool → FilePath → FlatIndex → Io W (Unit {0})
  unfolding save_snapshot
  flat_save stopped path idx = save_snapshot json store stopped path (flat_snapshot idx)

  -- `Load` sets every field of the index.
  unfoldable pub flat_load : Bool → FilePath → W → Result FlatIndex
  unfolding load_snapshot
  flat_load stopped path w = do s ← load_snapshot json store stopped path w; ok (of_flat_snapshot s)

  built_stats :
      (stopped : Bool) (vectors : List VectorRecord) (old idx : FlatIndex)
      → flat_build stopped vectors old ≡ ok idx
      → of_flat_snapshot (flat_snapshot idx) ≡ idx
  unfolding flat_build
  built_stats stopped vectors old idx h =
      let (dim, checked, e) = >>=-eq-ok (checked_dim stopped vectors) _ h in
      subst (λ i. of_flat_snapshot (flat_snapshot i) ≡ i) (ok-injective e) refl

  -- Over a store that keeps its promises, an index that was built and saved without an error is
  -- loaded again as it was, its statistics included.
  pub flat_load-flat_save :
      (content : FilePath → W → Option Bytes)
      → StoreLaws store content
      → (path : FilePath) (stopped : Bool) (vectors : List VectorRecord) (old idx : FlatIndex)
        (w w' : W)
      → flat_build false vectors old ≡ ok idx
      → flat_save stopped path idx w ≡ (ok tt, w')
      → flat_load false path w' ≡ ok idx
  unfolding flat_load flat_save
  flat_load-flat_save content laws path stopped vectors old idx w w' built saved =
      rw
        (load_snapshot-save_snapshot json store content laws path (flat_snapshot idx) stopped w w'
          saved)
        (ap ok (built_stats false vectors old idx built))
