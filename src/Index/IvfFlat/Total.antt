-- ===== src/Index/IvfFlat/Total.antt =====
-- `Build` of index/ivf_flat.go succeeds, and where it puts the vectors.
use golance_db.Prelude.{
  ℕ, zero, suc, ◌+◌, ◌*◌, ◌/◌, ◌<◌, ◌^◌, ◌≡◌, refl, ap, sym, ◌∙◌, List, [], ◌∷◌, ◌++◌, ok, length,
  All, replicate, concat, get_elem?, map, arith, min, Bool-cases, inl, inr, length-replicate, ◌==◌,
  if◌then◌else◌, Perm, false, ==_iff, ==_refl,
}
use golance_db.Prelude.Int.{ℤ, pos}
use golance_db.Float.{Arithmetic, f64_lt, max_float64_bits}
use golance_db.Distance.{DistanceMetric, distance}
use golance_db.Index.Types.{VectorRecord, at, checked_dim, check_lengths}
use golance_db.Index.Flat.Nearest.{HaveDim, IsTotalMetric, total_distance, nonempty}
use golance_db.Index.IvfFlat.{IvfFlatIndex}
use golance_db.Index.IvfFlat.Build.{
  Arithmetic32, Cluster, Moved, best_loop, assign_vectors, accumulate, recompute, iterate,
  initial_centroids, add_moved, conv_threshold, put_first, cluster_count, ivf_build, max_iters,
  group,
}
use golance_db.Index.IvfFlat.Centroids.{
  AreLong, accumulate-SumsAreLong, recompute-AreLong, All-replicate, iterate-AreLong,
  length-iterate, length-initial_centroids, initial_centroids-AreLong,
}
use golance_db.Index.IvfFlat.Partitions.{
  seq, group-perm, length-group, assign_vectors_bound, built_index,
}
use golance_db.Index.IvfFlat.Exact.{concat-replicate-nil}
use mathlib.Core.Path.{subst}
use native.Mathlib.Nat.{div-lt_iff_lt-mul}

at_total {ℓ} :
    {A : Type ℓ} (l : List A) (i : ℕ) → i < length l → (x : A) × (at (get_elem? l i) ≡ ok x)
at_total [] i h = absurd (omega arith)
at_total (x ∷ l) zero h = (x, refl)
at_total (x ∷ l) (suc i) h = at_total l i (omega arith)

module _ (m : Arithmetic) (metric : DistanceMetric) (total : IsTotalMetric metric) where
  best_loop_total :
      (v : List ℕ) (ci best_c best_d : ℕ) (cs : List (List ℕ))
      → AreLong (length v) cs
      → (c : ℕ) × (best_loop m metric v ci best_c best_d cs ≡ ok c)
  unfolding best_loop
  best_loop_total v ci best_c best_d [] h = (best_c, refl)
  best_loop_total v ci best_c best_d (c ∷ cs) h =
      let (d, e) = total_distance m v c metric total (sym h.0) in
      let (r, q) =
        best_loop_total v (suc ci) (if f64_lt d best_d then ci else best_c)
          (if f64_lt d best_d then d else best_d) cs h.1 in
      (r, rw e q)

  assign_vectors_total :
      (dim : ℕ) (vs : List VectorRecord) (centroids : List (List ℕ))
      → HaveDim dim vs
      → AreLong dim centroids
      → (cs : List ℕ) × (assign_vectors m metric vs centroids ≡ ok cs)
  unfolding assign_vectors
  assign_vectors_total dim [] centroids h long = ([], refl)
  assign_vectors_total dim (v ∷ vs) centroids h long =
      let (c, e) = best_loop_total v.vector 0 0 max_float64_bits centroids (rw h.0 long) in
      let (cs, es) = assign_vectors_total dim vs centroids h.1 long in (c ∷ cs, rw (e, es) refl)

nth_start : (i n k : ℕ) → i < k → 0 < n → (i * n) / k < n
nth_start i n k h p =
    let bound : i * n < n * k = grind arith in (div-lt_iff_lt-mul (omega arith)).1 bound

initial_centroids_total :
    (vectors : List VectorRecord) (left i k : ℕ)
    → i + left ≡ k
    → 0 < length vectors
    → (cs : List (List ℕ)) × (initial_centroids vectors left i k ≡ ok cs)
unfolding initial_centroids
initial_centroids_total vectors zero i k e p = ([], refl)
initial_centroids_total vectors (suc left) i k e p =
    let (v, got) = at_total vectors ((i * length vectors) / k) (nth_start i _ k (omega arith) p) in
    let (cs, more) = initial_centroids_total vectors left (suc i) k (omega arith) p in
    (v.vector ∷ cs, rw (got, more) refl)

module _ (m : Arithmetic) (a : Arithmetic32) (draw : ℕ → ℕ → ℕ) (vectors : List VectorRecord)
    (some_vector : 0 < length vectors)
    (drawn_below : (j : ℕ) → draw j (length vectors) < length vectors) where
  recompute_total :
      (olds : List (List ℕ)) (clusters : List Cluster) (moved drawn : ℕ)
      → (r : Moved) × (recompute m a draw vectors olds clusters moved drawn ≡ ok r)
  unfolding recompute
  recompute_total [] clusters moved drawn = (_, refl)
  recompute_total (o ∷ os) [] moved drawn = (_, refl)
  recompute_total (o ∷ os) ((sum, count) ∷ cs) moved drawn = elim (Bool-cases (count == 0)) [
    | inl none_left ↦
        let (v, got) = at_total vectors (draw drawn (length vectors)) (drawn_below drawn) in
        let (r, e) = recompute_total os cs moved (suc drawn) in
        (put_first v.vector r, rw (recompute, none_left, got, e) refl)
    | inr some_left ↦
        let mean = map (λ x. a.div32 x (a.of_count count)) sum in
        let (r, e) =
          recompute_total os cs (add_moved m moved (distance m o mean DistanceMetric.euclidean))
            drawn in
        (put_first mean r, rw (recompute, some_left, e) refl)
  ]

  iterate_total :
      (rounds : ℕ) (metric : DistanceMetric) (k dim : ℕ) (centroids : List (List ℕ)) (drawn : ℕ)
      → IsTotalMetric metric
      → HaveDim dim vectors
      → AreLong dim centroids
      → (cs : List (List ℕ)) × (iterate m a draw vectors rounds metric k dim centroids drawn
          ≡ ok cs)
  unfolding iterate
  iterate_total zero metric k dim centroids drawn t dims long = (centroids, refl)
  iterate_total (suc rounds) metric k dim centroids drawn t dims long =
      let (chosen, assigned) = assign_vectors_total m metric t dim vectors centroids dims long in
      let clusters = accumulate a vectors chosen (replicate k (replicate dim 0, 0)) in
      let (r, made) = recompute_total centroids clusters 0 drawn in
      let kept : AreLong dim r.centroids =
        recompute-AreLong dim vectors dims m a draw centroids clusters 0 drawn
          (accumulate-SumsAreLong dim vectors dims m a draw vectors chosen _ (
            All-replicate (λ (p : Cluster). length p.0 ≡ dim) k (replicate dim 0, 0)
              (length-replicate dim 0)))
          made in
      elim (Bool-cases (f64_lt r.moved conv_threshold)) [
        | inl still ↦ (r.centroids, rw (assigned, made, still) refl)
        | inr moving ↦
            let (cs, e) = iterate_total rounds metric k dim r.centroids r.drawn t dims kept in
            (cs, rw (assigned, made, moving) e)
      ]

check_lengths_total :
    (dim : ℕ) (vs : List VectorRecord) → HaveDim dim vs → check_lengths dim vs ≡ ok tt
unfolding check_lengths
check_lengths_total dim [] h = refl
check_lengths_total dim (v ∷ vs) h =
    rw ((==_iff (length v.vector) dim).1 h.0) (check_lengths_total dim vs h.1)

checked_dim_total :
    (dim : ℕ) (vs : List VectorRecord)
    → 0 < dim
    → 0 < length vs
    → HaveDim dim vs
    → checked_dim false vs ≡ ok dim
unfolding checked_dim
checked_dim_total dim [] d p h = absurd (omega arith)
checked_dim_total dim (v ∷ vs) d p h =
    let rest : check_lengths (length v.vector) vs ≡ ok tt =
      rw h.0 (check_lengths_total dim vs h.1) in
    rw (h.0, nonempty dim d, ==_refl dim, rest) refl

-- `Build`, of which each step has succeeded
ivf_build_steps :
    (m : Arithmetic) (a : Arithmetic32) (draw : ℕ → ℕ → ℕ) (vectors : List VectorRecord)
    (old : IvfFlatIndex) {dim k : ℕ} {start centroids : List (List ℕ)} {cs : List ℕ}
    → checked_dim false vectors ≡ ok dim
    → cluster_count old.num_partitions (length vectors) ≡ ok k
    → initial_centroids vectors k 0 k ≡ ok start
    → iterate m a draw vectors max_iters old.metric k dim start 0 ≡ ok centroids
    → assign_vectors m old.metric vectors centroids ≡ ok cs
    → ivf_build m a draw false vectors old ≡ ok (built_index vectors old dim k centroids cs)
unfolding ivf_build
ivf_build_steps m a draw vectors old checked counted started iterated assigned =
    rw (checked, counted, started, iterated, assigned) refl

-- Of vectors of one dimension over 0, at least one and fewer than 2^31, `Build` succeeds where the
-- index asks for a partition or more and its metric is the Euclidean or the dot product one, if
-- `rand.Intn` returns a number below its bound. It makes as many partitions as the index asks for,
-- or as there are vectors where these are fewer, and the position of each vector stands in exactly
-- one of them, once.
pub ivf_build_total :
    (m : Arithmetic) (a : Arithmetic32) (draw : ℕ → ℕ → ℕ) (vectors : List VectorRecord)
    (old : IvfFlatIndex) (dim p : ℕ)
    → IsTotalMetric old.metric
    → old.num_partitions ≡ pos (suc p)
    → 0 < dim
    → 0 < length vectors
    → length vectors < 2 ^ 31
    → HaveDim dim vectors
    → ((j n : ℕ) → 0 < n → draw j n < n)
    → (idx : IvfFlatIndex) × (ivf_build m a draw false vectors old ≡ ok idx)
      × (length idx.partitions ≡ min (suc p) (length vectors))
      × Perm (concat idx.partitions) (seq 0 (length vectors))
ivf_build_total m a draw vectors old dim p total parts some_dim some_vector few dims below =
    let k = min (suc p) (length vectors) in
    let checked = checked_dim_total dim vectors some_dim some_vector dims in
    let (start, started) = initial_centroids_total vectors k 0 k (omega arith) some_vector in
    let (centroids, iterated) =
      iterate_total m a draw vectors some_vector (λ j. below j (length vectors) some_vector)
        max_iters old.metric k dim start 0 total dims
        (initial_centroids-AreLong dim vectors dims k 0 k started) in
    let long =
      iterate-AreLong dim vectors dims m a draw max_iters old.metric k start 0
        (initial_centroids-AreLong dim vectors dims k 0 k started) iterated in
    let (cs, assigned) = assign_vectors_total m old.metric total dim vectors centroids dims long in
    let size =
      length-iterate m a draw vectors max_iters old.metric k dim start 0
        (length-initial_centroids vectors k 0 k started) iterated in
    let (each, bound) =
      assign_vectors_bound m old.metric vectors centroids (omega arith) assigned in
    let size' : length (replicate {A = List ℤ} k []) ≡ length centroids =
      length-replicate k [] ∙ sym size in
    (
      built_index vectors old dim k centroids cs,
      ivf_build_steps m a draw vectors old checked (rw parts refl) started iterated assigned,
      length-group 0 cs (replicate k []) ∙ length-replicate k [],
      subst (λ l. Perm (concat (group 0 cs (replicate k []))) l)
          (ap (λ l. l ++ seq 0 (length cs)) (concat-replicate-nil k) ∙ ap (seq 0) each)
          (group-perm 0 cs (replicate k []) (subst (λ n. All (λ c. c < n) cs) (sym size') bound)
            (omega arith)),
    )
