-- ===== src/Index/IvfFlat/Partitions.antt =====
-- The partitions that `Build` of index/ivf_flat.go makes: each vector is in one of them, once.
use golance_db.Prelude.{
  ℕ, zero, suc, ◌+◌, ◌<◌, ◌≤◌, ◌^◌, ◌≡◌, refl, ap, sym, ◌∙◌, Bool, List, [], ◌∷◌, ◌++◌, ok, length,
  All, concat, replicate, if◌then◌else◌, arith, Perm, >>=-eq-ok, ok-injective, append_nil,
}
use golance_db.Prelude.Int.{ℤ, pos, negsuc, to_i32}
use golance_db.Bytes.{to_i32_of_lt}
use golance_db.Float.{Arithmetic, f64_lt, max_float64_bits}
use golance_db.Distance.{DistanceMetric, distance}
use golance_db.Index.Types.{VectorRecord, IndexType, checked_dim}
use golance_db.Index.Flat.Nearest.{checked_dim_sound, HaveDim}
use golance_db.Index.IvfFlat.{IvfFlatIndex}
use golance_db.Index.IvfFlat.Build.{
  Arithmetic32, update_at, best_loop, assign_vectors, iterate, initial_centroids, group,
  cluster_count, max_iters, ivf_build,
}
use mathlib.Core.List.Perm
use mathlib.Core.List.{append_assoc, perm_middle}
use mathlib.Core.Path.{subst}
use golance_db.Index.IvfFlat.Centroids.{
  length-update_at, length-iterate, length-initial_centroids, AreLong, initial_centroids-AreLong,
  iterate-AreLong,
}

-- The positions from i on
abbrev pub seq : ℕ → ℕ → List ℤ
seq i zero = []
seq i (suc n) = pos i ∷ seq (suc i) n

-- The choice of a centroid is the number of one.
module _ (m : Arithmetic) (metric : DistanceMetric) where
  best_loop_bound :
      (v : List ℕ) (ci best_c best_d : ℕ) (cs : List (List ℕ)) {c : ℕ}
      → best_c < ci + length cs
      → best_loop m metric v ci best_c best_d cs ≡ ok c
      → c < ci + length cs
  unfolding best_loop
  best_loop_bound v ci best_c best_d [] b h = ground (arith, ok-injective h)
  best_loop_bound v ci best_c best_d (c ∷ cs) b h =
      let (d, e, h') = >>=-eq-ok (distance m v c metric) _ h in
      omega (
        arith,
        best_loop_bound v (suc ci) (if f64_lt d best_d then ci else best_c)
            (if f64_lt d best_d then d else best_d) cs (ground arith) h',
      )

  pub assign_vectors_bound :
      (vs : List VectorRecord) (centroids : List (List ℕ)) {cs : List ℕ}
      → 0 < length centroids
      → assign_vectors m metric vs centroids ≡ ok cs
      → (length cs ≡ length vs) × All (λ c. c < length centroids) cs
  unfolding assign_vectors
  assign_vectors_bound [] centroids {cs} b h =
      subst (λ l. (length l ≡ 0) × All (λ c. c < length centroids) l) (ok-injective h) (refl, tt)
  assign_vectors_bound (v ∷ vs) centroids {cs} b h =
      let (c, e, h1) = >>=-eq-ok (best_loop m metric v.vector 0 0 max_float64_bits centroids) _ h in
      let (rest, e1, h2) = >>=-eq-ok (assign_vectors m metric vs centroids) _ h1 in
      let (same, bound) = assign_vectors_bound vs centroids b e1 in
      subst (λ l. (length l ≡ suc (length vs)) × All (λ c. c < length centroids) l)
        (ok-injective h2)
        (
          ap suc same,
          (
            omega (arith, best_loop_bound v.vector 0 0 max_float64_bits centroids (omega arith) e),
            bound,
          ),
        )

perm-update_at :
    (c : ℕ) (x : ℤ) (ps : List (List ℤ))
    → c < length ps
    → Perm (concat (update_at c (λ p. p ++ x ∷ []) ps)) (x ∷ concat ps)
unfolding update_at
perm-update_at c x [] h = absurd (omega arith)
perm-update_at zero x (p ∷ ps) h =
    subst (λ l. Perm l (x ∷ (p ++ concat ps))) (sym (append_assoc p (x ∷ []) (concat ps)))
      (perm_middle p (concat ps))
perm-update_at (suc c) x (p ∷ ps) h =
    Perm.trans (Perm.append_left p (perm-update_at c x ps (omega arith)))
      (perm_middle p (concat ps))

pub group-perm :
    (vi : ℕ) (cs : List ℕ) (ps : List (List ℤ))
    → All (λ c. c < length ps) cs
    → vi + length cs ≤ 2 ^ 31
    → Perm (concat (group vi cs ps)) (concat ps ++ seq vi (length cs))
unfolding group
group-perm vi [] ps h b =
    subst (λ l. Perm (concat ps) l) (sym (append_nil (concat ps))) (Perm.refl _)
group-perm vi (c ∷ cs) ps h b =
    let ps' = update_at c (λ p. p ++ to_i32 vi ∷ []) ps in
    let same : length ps' ≡ length ps = length-update_at c _ ps in
    Perm.trans
      (group-perm (suc vi) cs ps' (subst (λ n. All (λ c. c < n) cs) (sym same) h.1) (omega arith))
      (Perm.trans
        (Perm.append_right (seq (suc vi) (length cs)) (perm-update_at c (to_i32 vi) ps h.0))
        (subst
          (λ x.
            Perm (x ∷ (concat ps ++ seq (suc vi) (length cs)))
              (concat ps ++ pos vi ∷ seq (suc vi) (length cs)))
          (sym (to_i32_of_lt vi (omega arith)))
          (Perm.symm (perm_middle (concat ps) (seq (suc vi) (length cs))))))

pub length-group : (vi : ℕ) (cs : List ℕ) (ps : List (List ℤ)) → length (group vi cs ps) ≡ length ps
unfolding group
length-group vi [] ps = refl
length-group vi (c ∷ cs) ps = length-group (suc vi) cs _ ∙ length-update_at c _ ps

cluster_count_pos : (p : ℤ) (n : ℕ) {k : ℕ} → 0 < n → cluster_count p n ≡ ok k → 0 < k
cluster_count_pos (pos zero) n b h = cc
cluster_count_pos (pos (suc p)) n b h = ground (arith, ok-injective h)
cluster_count_pos (negsuc p) n b h = cc

abbrev pub built_index :
    List VectorRecord → IvfFlatIndex → ℕ → ℕ → List (List ℕ) → List ℕ → IvfFlatIndex
built_index vectors old dim k centroids cs = record old {
  centroids = centroids;
  partitions = group 0 cs (replicate k []);
  vectors = vectors;
  num_partitions = pos k;
  dim = dim;
  stats = record {
    num_vectors = pos (length vectors);
    num_partitions = pos k;
    build_time_ms = pos 0;
    index_type = IndexType.ivf_flat;
  };
}

-- What a `Build` that succeeded leaves, the final centroids and their assignment given
pub ivf_build_inv :
    (m : Arithmetic) (a : Arithmetic32) (draw : ℕ → ℕ → ℕ) (stopped : Bool)
    (vectors : List VectorRecord) (old idx : IvfFlatIndex)
    → ivf_build m a draw stopped vectors old ≡ ok idx
    → (dim : ℕ) × (k : ℕ) × (centroids : List (List ℕ)) × (cs : List ℕ) × (checked_dim stopped
          vectors
        ≡ ok dim)
      × (length centroids ≡ k)
      × AreLong dim centroids
      × HaveDim dim vectors
      × (0 < k)
      × (length cs ≡ length vectors)
      × All (λ c. c < k) cs
      × (idx ≡ built_index vectors old dim k centroids cs)
unfolding ivf_build
ivf_build_inv m a draw stopped vectors old idx h =
    let (dim, checked, h1) = >>=-eq-ok (checked_dim stopped vectors) _ h in
    let (k, counted, h2) = >>=-eq-ok (cluster_count old.num_partitions (length vectors)) _ h1 in
    let (start, started, h3) = >>=-eq-ok (initial_centroids vectors k 0 k) _ h2 in
    let (centroids, iterated, h4) =
      >>=-eq-ok (iterate m a draw vectors max_iters old.metric k dim start 0) _ h3 in
    let (cs, assigned, h5) = >>=-eq-ok (assign_vectors m old.metric vectors centroids) _ h4 in
    let size =
      length-iterate m a draw vectors max_iters old.metric k dim start 0
        (length-initial_centroids vectors k 0 k started) iterated in
    let (_, some_vector, dims) = checked_dim_sound stopped vectors checked in
    let some_cluster = cluster_count_pos old.num_partitions (length vectors) some_vector counted in
    let (each, bound) =
      assign_vectors_bound m old.metric vectors centroids (omega arith) assigned in
    (
      dim,
      k,
      centroids,
      cs,
      checked,
      size,
      iterate-AreLong dim vectors dims m a draw max_iters old.metric k start 0
          (initial_centroids-AreLong dim vectors dims k 0 k started) iterated,
      dims,
      some_cluster,
      each,
      subst (λ n. All (λ c. c < n) cs) size bound,
      sym (ok-injective h5),
    )
