-- ===== src/Index/Flat.antt =====
-- index/flat.go: the index that computes the distance to every vector.
pub mod Nearest
pub mod Saved
use golance_db.Prelude.{
  ℕ, ◌==◌, Bool, true, false, List, [], ◌∷◌, Result, ok, err, ◌>>=◌, length, if◌then◌else◌,
  canceled, not_built, length_mismatch,
}
use golance_db.Prelude.Int.{ℤ, pos, ltb_ℤ}
use golance_db.Prelude.Sort.{Sorter}
use golance_db.Float.{Arithmetic}
use golance_db.Distance.{SearchResult, DistanceMetric, by_score, top_k}
use golance_db.Index.Types.{VectorRecord, IndexType, IndexStats, checked_dim, score}

pub record FlatIndex : Type 0 where
  pub vectors : List VectorRecord
  pub metric : DistanceMetric
  pub stats : IndexStats
  pub dim : ℕ

abbrev pub flat_stats : List VectorRecord → IndexStats
flat_stats vectors = record {
  num_vectors = pos (length vectors);
  num_partitions = pos 0;
  build_time_ms = pos 0;
  index_type = IndexType.flat;
}

unfoldable pub new_flat_index : DistanceMetric → FlatIndex
new_flat_index metric = record {
  vectors = [];
  metric = metric;
  stats = record {
    num_vectors = pos 0;
    num_partitions = pos 0;
    build_time_ms = pos 0;
    index_type = IndexType.unknown (pos 0);
  };
  dim = 0;
}

-- `Build`, of which an error leaves the index as it is
unfoldable pub flat_build : Bool → List VectorRecord → FlatIndex → Result FlatIndex
unfolding checked_dim
flat_build stopped vectors idx = do
  dim ← checked_dim stopped vectors
  ok (record idx { vectors = vectors; dim = dim; stats = flat_stats vectors })

-- The loop of `Search`
unfoldable pub score_all :
    Arithmetic → List ℕ → DistanceMetric → List VectorRecord → Result (List SearchResult)
score_all m query metric [] = ok []
score_all m query metric (v ∷ vs) = do
  r ← score m query metric v
  rs ← score_all m query metric vs
  ok (r ∷ rs)

unfoldable pub flat_search :
    Arithmetic
    → Sorter SearchResult by_score
    → Bool
    → FlatIndex
    → List ℕ
    → ℤ
    → DistanceMetric
    → Result (List SearchResult)
unfolding score_all top_k
flat_search m s stopped idx query k metric =
    if stopped
    then err canceled
    else if length idx.vectors == 0
    then err not_built
    else if length query == idx.dim
    then (if ltb_ℤ (pos 0) k
        then (do results ← score_all m query metric idx.vectors; ok (top_k s results k))
        else ok [])
    else err length_mismatch
