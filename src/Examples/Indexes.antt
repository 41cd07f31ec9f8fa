-- ===== src/Examples/Indexes.antt =====
-- The indexes over three small vectors.
use golance_db.Prelude.{
  ℕ, suc, zero, ◌+◌, ◌-◌, ◌/◌, ◌≡◌, ◌≢◌, refl, sym, ap, ◌∙◌, inl, inr, Error, bad_manifest, Bool,
  true, false, List, [], ◌∷◌, Option, none, some, Result, ok, err, length, arith, if◌then◌else◌,
}
use golance_db.Prelude.Int.{pos, ℤ_discrete}
use golance_db.Prelude.Sort.{Sorter, insertion_sorter}
use golance_db.Bytes.{Bytes}
use golance_db.Prelude.Dict.{dec_cases}
use mathlib.Core.Logic.{ite, if_neg}
use native.Mathlib.Decide.{ℕ_discrete}
use golance_db.Float.{Arithmetic}
use golance_db.Distance.{SearchResult, DistanceMetric, by_score}
use golance_db.Distance.TopK.{IsNearest, AreScored}
use golance_db.Index.Types.{VectorRecord, IndexType}
use golance_db.Index.Flat.{FlatIndex, flat_build, flat_search, new_flat_index}
use golance_db.Index.Flat.Nearest.{AreScores, flat_search-IsNearest}
use golance_db.Index.Flat.Saved.{
  FlatSnapshot, flat_snapshot, flat_save, flat_load, flat_load-flat_save,
}
use golance_db.Index.Snapshot.{SnapshotJson}
use golance_db.Index.IvfFlat.{
  IvfFlatIndex, CentDist, by_dist, ivf_search, new_ivf_flat_index, probe_count,
}
use golance_db.Index.IvfFlat.Build.{Arithmetic32, ivf_build}
use golance_db.Index.IvfFlat.Total.{ivf_build_total}
use golance_db.Index.IvfFlat.Partitions.{seq}
use golance_db.Prelude.{Perm, concat, min}
use golance_db.Index.IvfFlat.Exact.{ivf_search-IsNearest}
use golance_db.Examples.Query.{small_floats, sorter}
use golance_db.Examples.Disk.{disk_store, disk_content, disk_laws}

abbrev points : List VectorRecord
points =
    record { row_id = pos 1; vector = 3 ∷ 1 ∷ [] }
    ∷ record { row_id = pos 2; vector = 1 ∷ 1 ∷ [] }
    ∷ record { row_id = pos 3; vector = 9 ∷ 9 ∷ [] }
    ∷ []

abbrev flat_points : FlatIndex
flat_points = record (new_flat_index DistanceMetric.euclidean) {
  vectors = points;
  dim = 2;
  stats = golance_db.Index.Flat.flat_stats points;
}

flat_run : flat_build false points (new_flat_index DistanceMetric.euclidean) ≡ ok flat_points
unfolding flat_build
flat_run = refl

flat_dim : length {A = ℕ} (2 ∷ 2 ∷ []) ≡ flat_points.dim
flat_dim = omega arith

flat_search-IsNearest_example :
    (rs : List SearchResult) × (near : List SearchResult) × (far : List SearchResult) × AreScores
      small_floats
      (2 ∷ 2 ∷ [])
      DistanceMetric.euclidean
      points
      rs
    × (flat_search small_floats sorter false flat_points
          (2 ∷ 2 ∷ [])
          (pos 2)
          DistanceMetric.euclidean
        ≡ ok near)
    × (AreScored rs → IsNearest 2 rs near far)
flat_search-IsNearest_example =
    flat_search-IsNearest small_floats sorter points (new_flat_index DistanceMetric.euclidean)
      flat_points (2 ∷ 2 ∷ []) 1 DistanceMetric.euclidean tt flat_run flat_dim

-- Rounded quotients in place of those of the machine
abbrev small_floats32 : Arithmetic32
small_floats32 = record {
  add32 = ◌+◌;
  div32 = λ x y. if golance_db.Prelude.ltb 0 y then x / y else 0;
  of_count = λ n. n;
}

abbrev two_parts : IvfFlatIndex
two_parts = new_ivf_flat_index (pos 2) DistanceMetric.euclidean

abbrev first_draw : ℕ → ℕ → ℕ
first_draw j n = 0

-- Differences without a sign
abbrev near_floats : Arithmetic
near_floats = record small_floats { sub = λ x y. (x - y) + (y - x) }

abbrev ivf_points : IvfFlatIndex
ivf_points = record two_parts {
  centroids = (6 ∷ 5 ∷ []) ∷ (1 ∷ 1 ∷ []) ∷ [];
  partitions = (pos 2 ∷ []) ∷ (pos 0 ∷ pos 1 ∷ []) ∷ [];
  vectors = points;
  num_partitions = pos 2;
  dim = 2;
  stats = record {
    num_vectors = pos 3;
    num_partitions = pos 2;
    build_time_ms = pos 0;
    index_type = IndexType.ivf_flat;
  };
}

ivf_run : ivf_build near_floats small_floats32 first_draw false points two_parts ≡ ok ivf_points
unfolding ivf_build new_ivf_flat_index golance_db.Distance.distance golance_db.Float.f64_lt
    golance_db.Float.rank
ivf_run = refl

ivf_probes : probe_count ivf_points ≡ ivf_points.num_partitions
unfolding probe_count new_ivf_flat_index
ivf_probes = refl

ivf_dim : length {A = ℕ} (2 ∷ 2 ∷ []) ≡ ivf_points.dim
ivf_dim = omega arith

by_distance : Sorter CentDist by_dist
by_distance = insertion_sorter by_dist

ivf_search-IsNearest_example :
    (rs : List SearchResult) × (found : List SearchResult) × (far : List SearchResult) × AreScores
      near_floats
      (2 ∷ 2 ∷ [])
      DistanceMetric.euclidean
      points
      rs
    × (ivf_search near_floats
          (2 ∷ 2 ∷ [])
          DistanceMetric.euclidean
          sorter
          by_distance
          false
          ivf_points
          (pos 2)
        ≡ ok found)
    × (AreScored rs → IsNearest 2 rs found far)
ivf_search-IsNearest_example =
    ivf_search-IsNearest near_floats sorter by_distance small_floats32 first_draw points two_parts
      ivf_points (2 ∷ 2 ∷ []) 1 DistanceMetric.euclidean tt (omega arith) ivf_run ivf_probes ivf_dim

err-ne-ok : {A : Type 0} {why : Error} {a : A} → err why ≢ ok a
err-ne-ok e = cc

snapshot_discrete : Discrete FlatSnapshot
snapshot_discrete = hlevel (ℕ_discrete, ℤ_discrete)

-- A JSON form for the one snapshot
abbrev marshal_snapshot : FlatSnapshot → Result Bytes
marshal_snapshot s =
    ite (snapshot_discrete s (flat_snapshot flat_points)) (ok (7 ∷ [])) (err bad_manifest)

unmarshal-marshal_snapshot :
    (s : FlatSnapshot) (b : Bytes)
    → marshal_snapshot s ≡ ok b
    → ok (flat_snapshot flat_points) ≡ ok s
unmarshal-marshal_snapshot s b h =
    elim (dec_cases (snapshot_discrete s (flat_snapshot flat_points))) [
      | inl same ↦ ap ok (sym same)
      | inr differ ↦ absurd (
          err-ne-ok (sym (if_neg (snapshot_discrete s (flat_snapshot flat_points)) differ _ _) ∙ h))
    ]

snapshot_json : SnapshotJson FlatSnapshot
snapshot_json = record {
  marshal = marshal_snapshot;
  unmarshal = λ b. ok (flat_snapshot flat_points);
  unmarshal-marshal = unmarshal-marshal_snapshot;
}

save_run :
    flat_save snapshot_json disk_store false ((b'i' ∷ []) ∷ []) flat_points []
    ≡ (ok tt, ((b'i' ∷ []) ∷ [], 7 ∷ []) ∷ [])
unfolding flat_save snapshot_json snapshot_discrete ℤ_discrete ℕ_discrete
    golance_db.Storage.LocalFs.local_fs new_flat_index
save_run = refl

flat_load-flat_save_example :
    flat_load snapshot_json disk_store false ((b'i' ∷ []) ∷ []) (((b'i' ∷ []) ∷ [], 7 ∷ []) ∷ [])
    ≡ ok flat_points
flat_load-flat_save_example =
    flat_load-flat_save snapshot_json disk_store disk_content disk_laws ((b'i' ∷ []) ∷ []) false
      points (new_flat_index DistanceMetric.euclidean) flat_points []
      (((b'i' ∷ []) ∷ [], 7 ∷ []) ∷ []) flat_run save_run

ivf_build_total_example :
    (idx : IvfFlatIndex) × (ivf_build near_floats small_floats32 first_draw false points two_parts
      ≡ ok idx)
    × (length idx.partitions ≡ min 2 (length points))
    × Perm (concat idx.partitions) (seq 0 (length points))
unfolding new_ivf_flat_index
ivf_build_total_example =
    ivf_build_total near_floats small_floats32 first_draw points two_parts 2 1 tt refl (omega arith)
      (omega arith) (omega arith) (refl, (refl, (refl, tt))) (λ j n h. h)
