-- ===== src/Index/Types.antt =====
-- index/types.go, and the checks on vectors that the two kinds of index of index/interface.go share.
use golance_db.Prelude.{
  ℕ, ◌==◌, Bool, true, false, List, [], ◌∷◌, Option, none, some, Result, ok, err, panic, ◌>>=◌,
  ◌>>◌, length, if◌then◌else◌, canceled, empty_vectors, bad_dimension, length_mismatch,
}
use golance_db.Prelude.Int.{ℤ}
use golance_db.Float.{Arithmetic}
use golance_db.Distance.{SearchResult, DistanceMetric, distance}

-- A float32 is its bit pattern.
pub record VectorRecord : Type 0 where
  pub row_id : ℤ
  pub vector : List ℕ

pub data IndexType : Type 0 where
  ivf_pq ivf_flat hnsw flat : IndexType
  unknown : ℤ → IndexType

pub record IndexStats : Type 0 where
  pub num_vectors : ℤ
  pub num_partitions : ℤ
  pub build_time_ms : ℤ
  pub index_type : IndexType

-- `if len(v.Vector) != dim` for each vector
unfoldable pub check_lengths : ℕ → List VectorRecord → Result (Unit {0})
check_lengths dim [] = ok tt
check_lengths dim (v ∷ vs) =
    let rest = check_lengths dim vs in if length v.vector == dim then rest else err length_mismatch

-- The checks at the head of both `Build`: the dimension of the vectors, or an error
unfoldable pub checked_dim : Bool → List VectorRecord → Result ℕ
unfolding check_lengths
checked_dim true vs = err canceled
checked_dim false [] = err empty_vectors
checked_dim false (v ∷ vs) =
    if length v.vector == 0
    then err bad_dimension
    else (do check_lengths (length v.vector) (v ∷ vs); ok (length v.vector))

-- The distance to a vector, as a search result
abbrev pub score : Arithmetic → List ℕ → DistanceMetric → VectorRecord → Result SearchResult
score m query metric v = do
  d ← distance m query v.vector metric
  ok (record { row_id = v.row_id; score = d })

-- `l[i]`, which panics out of range
abbrev pub at {ℓ} : {A : Type ℓ} → Option A → Result A
at none = panic
at (some a) = ok a
