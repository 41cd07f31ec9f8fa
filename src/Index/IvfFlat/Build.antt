-- ===== src/Index/IvfFlat/Build.antt =====
-- `Build` of index/ivf_flat.go: k-means clustering. The arithmetic of float32 and the random numbers
-- are parameters.
use golance_db.Prelude.{
  ℕ, zero, suc, ◌*◌, ◌/◌, ◌==◌, Bool, true, false, List, [], ◌∷◌, ◌++◌, Result, ok, err, panic,
  ◌>>=◌, length, replicate, get_elem?, if◌then◌else◌, min, map,
}
use golance_db.Prelude.Int.{ℤ, pos, negsuc, to_i32}
use golance_db.Float.{Arithmetic, f64_lt, max_float64_bits}
use golance_db.Distance.{DistanceMetric, distance}
use golance_db.Index.Types.{VectorRecord, IndexType, checked_dim, at}
use golance_db.Index.IvfFlat.{IvfFlatIndex}

-- `+` and `/` of float32, and `float32(n)` of a count
pub record Arithmetic32 : Type 0 where
  pub add32 : ℕ → ℕ → ℕ
  pub div32 : ℕ → ℕ → ℕ
  pub of_count : ℕ → ℕ

-- 1e-6 as a float64
abbrev pub conv_threshold : ℕ
conv_threshold = 4517329193108106637

abbrev pub max_iters : ℕ
max_iters = 25

-- An update of the i-th element
unfoldable pub update_at {ℓ} : {A : Type ℓ} → ℕ → (A → A) → List A → List A
update_at i f [] = []
update_at zero f (x ∷ xs) = f x ∷ xs
update_at (suc i) f (x ∷ xs) = x ∷ update_at i f xs

-- A cluster in the making: the sum of its vectors, and their count
abbrev pub Cluster : Type 0
Cluster = List ℕ × ℕ

module _ (m : Arithmetic) (metric : DistanceMetric) where
  -- The inner loop of `assignVectors`, from the centroid ci on
  unfoldable pub best_loop : List ℕ → ℕ → ℕ → ℕ → List (List ℕ) → Result ℕ
  best_loop v ci best_c best_d [] = ok best_c
  best_loop v ci best_c best_d (c ∷ cs) = do
    d ← distance m v c metric
    best_loop v (suc ci) (if f64_lt d best_d then ci else best_c)
        (if f64_lt d best_d then d else best_d) cs

  unfoldable pub assign_vectors : List VectorRecord → List (List ℕ) → Result (List ℕ)
  unfolding best_loop
  assign_vectors [] centroids = ok []
  assign_vectors (v ∷ vs) centroids = do
    c ← best_loop v.vector 0 0 max_float64_bits centroids
    cs ← assign_vectors vs centroids
    ok (c ∷ cs)

-- `newCentroids[c][d] += vectors[vi].Vector[d]`, for vectors of one dimension
unfoldable pub add_vector : Arithmetic32 → List ℕ → List ℕ → List ℕ
add_vector a (x ∷ xs) (y ∷ ys) = a.add32 x y ∷ add_vector a xs ys
add_vector a xs ys = xs

unfoldable pub accumulate : Arithmetic32 → List VectorRecord → List ℕ → List Cluster → List Cluster
unfolding add_vector update_at
accumulate a (v ∷ vs) (c ∷ cs) clusters =
    accumulate a vs cs
      (update_at c (λ (p : Cluster). (add_vector a p.0 v.vector, suc p.1)) clusters)
accumulate a vs cs clusters = clusters

-- `moved`, if the distance can be taken
abbrev pub add_moved : Arithmetic → ℕ → Result ℕ → ℕ
add_moved m moved (ok md) = m.add moved md
add_moved m moved (err why) = moved
add_moved m moved panic = moved

-- What the loop over the clusters has made: the new centroids, `moved`, and how many random
-- numbers are drawn
pub record Moved : Type 0 where
  pub centroids : List (List ℕ)
  pub moved : ℕ
  pub drawn : ℕ

abbrev pub put_first : List ℕ → Moved → Moved
put_first c r = record r { centroids = c ∷ r.centroids }

-- `draw j n` is the j-th `rand.Intn(n)`, which is below n.
module _ (m : Arithmetic) (a : Arithmetic32) (draw : ℕ → ℕ → ℕ) (vectors : List VectorRecord) where
  unfoldable pub recompute : List (List ℕ) → List Cluster → ℕ → ℕ → Result Moved
  recompute (old ∷ olds) ((sum, count) ∷ clusters) moved drawn =
      let mean = map (λ x. a.div32 x (a.of_count count)) sum in
      elim (count == 0) [
        | true ↦ (do
          v ← at (get_elem? vectors (draw drawn (length vectors)))
          r ← recompute olds clusters moved (suc drawn)
          ok (put_first v.vector r))
        | false ↦ (do
          r ←
              recompute olds clusters
                (add_moved m moved (distance m old mean DistanceMetric.euclidean)) drawn
          ok (put_first mean r))
      ]
  recompute olds clusters moved drawn = ok (record { centroids = []; moved = moved; drawn = drawn })

  -- The loop of at most `maxIters` rounds
  unfoldable pub iterate : ℕ → DistanceMetric → ℕ → ℕ → List (List ℕ) → ℕ → Result (List (List ℕ))
  unfolding assign_vectors accumulate recompute
  iterate zero metric k dim centroids drawn = ok centroids
  iterate (suc rounds) metric k dim centroids drawn = do
    assignments ← assign_vectors m metric vectors centroids
    let clusters = accumulate a vectors assignments (replicate k (replicate dim 0, 0))
    r ← recompute centroids clusters 0 drawn
    if f64_lt r.moved conv_threshold
        then ok r.centroids
        else iterate rounds metric k dim r.centroids r.drawn

-- The first centroids, from the i-th of k on: they spread evenly across the data.
unfoldable pub initial_centroids : List VectorRecord → ℕ → ℕ → ℕ → Result (List (List ℕ))
initial_centroids vectors zero i k = ok []
initial_centroids vectors (suc left) i k = do
  v ← at (get_elem? vectors ((i * length vectors) / k))
  cs ← initial_centroids vectors left (suc i) k
  ok (v.vector ∷ cs)

-- The partitions, from the assignment of the vi-th vector on
unfoldable pub group : ℕ → List ℕ → List (List ℤ) → List (List ℤ)
unfolding update_at
group vi [] partitions = partitions
group vi (c ∷ cs) partitions = group (suc vi) cs (update_at c (λ p. p ++ to_i32 vi ∷ []) partitions)

-- `k`; a negative `numPartitions` makes the source panic at `make`, and 0 at `newCentroids[0]`.
abbrev pub cluster_count : ℤ → ℕ → Result ℕ
cluster_count (pos zero) n = panic
cluster_count (pos (suc p)) n = ok (min (suc p) n)
cluster_count (negsuc p) n = panic

-- `Build`, of which an error leaves the index as it is
unfoldable pub ivf_build :
    Arithmetic
    → Arithmetic32
    → (ℕ → ℕ → ℕ)
    → Bool
    → List VectorRecord
    → IvfFlatIndex
    → Result IvfFlatIndex
unfolding checked_dim initial_centroids iterate assign_vectors group
ivf_build m a draw stopped vectors idx = do
  dim ← checked_dim stopped vectors
  k ← cluster_count idx.num_partitions (length vectors)
  start ← initial_centroids vectors k 0 k
  centroids ← iterate m a draw vectors max_iters idx.metric k dim start 0
  assignments ← assign_vectors m idx.metric vectors centroids
  ok (record idx {
    centroids = centroids;
    partitions = group 0 assignments (replicate k []);
    vectors = vectors;
    num_partitions = pos k;
    dim = dim;
    stats = record {
      num_vectors = pos (length vectors);
      num_partitions = pos k;
      build_time_ms = pos 0;
      index_type = IndexType.ivf_flat;
    };
  })
