-- ===== src/Index/IvfFlat.antt =====
-- index/ivf_flat.go: the index that parts the vectors by their nearest centroid and searches the
-- partitions whose centroids are nearest to the query. This file has the index and the search.
pub mod Build
pub mod Saved
pub mod Centroids
pub mod Partitions
pub mod Probes
pub mod Exact
pub mod Total
use golance_db.Prelude.{
  ℕ, zero, suc, ◌-◌, ◌==◌, Bool, true, false, List, [], ◌∷◌, ◌++◌, Option, none, some, Result, ok,
  err, panic, ◌>>=◌, length, take, replicate, get_elem?, if◌then◌else◌, ltb, leb, canceled,
  not_built, length_mismatch,
}
use golance_db.Prelude.Int.{ℤ, pos, negsuc, ltb_ℤ}
use golance_db.Prelude.Sort.{Sorter}
use golance_db.Float.{Arithmetic, f64_lt}
use golance_db.Distance.{SearchResult, DistanceMetric, by_score, top_k, distance}
use golance_db.Index.Types.{VectorRecord, IndexType, IndexStats, score, at}

-- A partition lists the positions of its vectors, as int32.
pub record IvfFlatIndex : Type 0 where
  pub centroids : List (List ℕ)
  pub partitions : List (List ℤ)
  pub vectors : List VectorRecord
  pub num_partitions : ℤ
  pub metric : DistanceMetric
  pub stats : IndexStats
  pub dim : ℕ
  pub n_probes : ℤ

unfoldable pub new_ivf_flat_index : ℤ → DistanceMetric → IvfFlatIndex
new_ivf_flat_index num_partitions metric = record {
  centroids = [];
  partitions = [];
  vectors = [];
  num_partitions = if ltb_ℤ num_partitions (pos 1) then pos 1 else num_partitions;
  metric = metric;
  stats = record {
    num_vectors = pos 0;
    num_partitions = pos 0;
    build_time_ms = pos 0;
    index_type = IndexType.unknown (pos 0);
  };
  dim = 0;
  n_probes = pos 0;
}

-- `idx.vectors[vi]` and the like: a negative index panics as well.
abbrev pub elem_at {ℓ} : {A : Type ℓ} → List A → ℤ → Result A
elem_at l (pos i) = at (get_elem? l i)
elem_at l (negsuc i) = panic

-- `nProbes` of `Search`
unfoldable pub probe_count : IvfFlatIndex → ℤ
probe_count idx =
    let wanted =
      if ltb_ℤ (pos 0) idx.n_probes
      then idx.n_probes
      else if ltb_ℤ (pos 10) idx.num_partitions
      then pos 10
      else idx.num_partitions in
    if ltb_ℤ idx.num_partitions wanted then idx.num_partitions else wanted

-- `centDist`
pub record CentDist : Type 0 where
  pub idx : ℕ
  pub d : ℕ

abbrev pub by_dist : CentDist → CentDist → Bool
by_dist a b = f64_lt a.d b.d

module _ (m : Arithmetic) (query : List ℕ) (metric : DistanceMetric) where
  -- `cdist`, for `room` places from the i-th on: a centroid beyond the last place panics, and a
  -- place with no centroid keeps its zeros.
  unfoldable pub centroid_distances : ℕ → ℕ → List (List ℕ) → Result (List CentDist)
  centroid_distances room i [] = ok (replicate room (record { idx = 0; d = 0 }))
  centroid_distances zero i (c ∷ cs) = do d ← distance m query c metric; panic
  centroid_distances (suc room) i (c ∷ cs) = do
    d ← distance m query c metric
    rest ← centroid_distances room (suc i) cs
    ok (record { idx = i; d = d } ∷ rest)

  -- The vectors of a partition
  unfoldable pub scan_partition : List VectorRecord → List ℤ → Result (List SearchResult)
  scan_partition vectors [] = ok []
  scan_partition vectors (vi ∷ vis) = do
    v ← elem_at vectors vi
    r ← score m query metric v
    rs ← scan_partition vectors vis
    ok (r ∷ rs)

  -- The loop over the nearest partitions
  unfoldable pub scan_probes :
      List VectorRecord → List (List ℤ) → List CentDist → Result (List SearchResult)
  unfolding scan_partition
  scan_probes vectors partitions [] = ok []
  scan_probes vectors partitions (p ∷ ps) = do
    part ← at (get_elem? partitions p.idx)
    rs ← scan_partition vectors part
    more ← scan_probes vectors partitions ps
    ok (rs ++ more)

  -- `make([]centDist, idx.numPartitions)` panics at a negative number; so does not a negative
  -- `nProbes`, which makes no round.
  abbrev pub sized_distances : ℤ → List (List ℕ) → Result (List CentDist)
  sized_distances (pos room) cs = centroid_distances room 0 cs
  sized_distances (negsuc n) cs = panic

  abbrev pub rounds_of : ℤ → ℕ
  rounds_of (pos n) = n
  rounds_of (negsuc n) = 0

  unfoldable pub ivf_search :
      Sorter SearchResult by_score
      → Sorter CentDist by_dist
      → Bool
      → IvfFlatIndex
      → ℤ
      → Result (List SearchResult)
  unfolding centroid_distances scan_probes probe_count top_k
  ivf_search s near stopped idx k =
      if stopped
      then err canceled
      else if length idx.vectors == 0
      then err not_built
      else if length query == idx.dim
      then (if ltb_ℤ (pos 0) k
          then (do
            cdist ← sized_distances idx.num_partitions idx.centroids
            results ←
                scan_probes idx.vectors idx.partitions
                  (take (rounds_of (probe_count idx)) (near.slice cdist))
            ok (top_k s results k))
          else ok [])
      else err length_mismatch
