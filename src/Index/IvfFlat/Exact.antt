-- ===== src/Index/IvfFlat/Exact.antt =====
-- index/ivf_flat.go finds the nearest vectors of all if it probes every partition.
use golance_db.Prelude.{
  ℕ, zero, suc, ◌+◌, ◌<◌, ◌≤◌, ◌^◌, ◌≡◌, refl, ap, sym, ◌∙◌, true, false, List, [], ◌∷◌, ◌++◌, ok,
  length, take, drop, All, concat, map, replicate, arith, Perm, min, ==_refl, take_all, length-map,
  length-replicate,
}
use golance_db.Prelude.Int.{ℤ, pos, negsuc}
use golance_db.Prelude.Sort.{Sorter}
use golance_db.Prelude.Perms.{length-perm, All-perm}
use native.Mathlib.Bridge.{le_prop}
use mathlib.Core.HLevel.{⊥_prop}
use golance_db.Float.{Arithmetic}
use golance_db.Distance.{SearchResult, DistanceMetric, by_score, top_k}
use golance_db.Distance.TopK.{IsNearest, AreScored, scored, top_k-IsNearest}
use golance_db.Index.Types.{VectorRecord}
use golance_db.Index.Flat.Nearest.{
  AreScores, IsTotalMetric, score_all_total, HaveDim, checked_dim_sound, nonempty, positive,
}
use golance_db.Index.IvfFlat.{
  IvfFlatIndex, CentDist, by_dist, probe_count, ivf_search, centroid_distances, scan_probes,
}
use golance_db.Index.IvfFlat.Build.{Arithmetic32, ivf_build, group}
use golance_db.Index.IvfFlat.Partitions.{ivf_build_inv, group-perm, length-group, built_index, seq}
use golance_db.Index.IvfFlat.Centroids.{AreLong}
use golance_db.Index.IvfFlat.Probes.{
  hit, nth, nats, no_result, IsPosition, map-nats, map-seq, concat-perm, scan_probes-map,
  centroid_distances_total, part_of,
}
use mathlib.Core.List.Perm
use mathlib.Core.Bool.{Bool-set}
use mathlib.Core.Path.{subst}

-- The scores are as many as the vectors.
length-AreScores :
    (m : Arithmetic) (query : List ℕ) (metric : DistanceMetric) (vs : List VectorRecord)
    (rs : List SearchResult)
    → AreScores m query metric vs rs
    → length rs ≡ length vs
length-AreScores m query metric [] [] h = refl
length-AreScores m query metric [] (r ∷ rs) h = absurd h
length-AreScores m query metric (v ∷ vs) [] h = absurd h
length-AreScores m query metric (v ∷ vs) (r ∷ rs) h =
    ap suc (length-AreScores m query metric vs rs h.2)

-- The nearest of some results are the nearest of the same results in another order.
IsNearest-perm :
    (k : ℕ) (rs rs' near far : List SearchResult)
    → Perm rs rs'
    → IsNearest k rs near far
    → IsNearest k rs' near far
IsNearest-perm k rs rs' near far p h = record {
  complete = Perm.trans h.complete p;
  count = h.count ∙ ap (min k) (length-perm rs rs' p);
  ascending = h.ascending;
  nearest = h.nearest;
}

pub concat-replicate-nil : (k : ℕ) → concat {A = ℤ} (replicate k []) ≡ []
concat-replicate-nil zero = refl
concat-replicate-nil (suc k) = concat-replicate-nil k

map-map_lem :
    (g : ℕ → List ℤ) (ds : List CentDist)
    → map (λ (p : CentDist). g p.idx) ds ≡ map g (map (λ (p : CentDist). p.idx) ds)
map-map_lem g [] = refl
map-map_lem g (p ∷ ds) = ap (◌∷◌ (g p.idx)) (map-map_lem g ds)

-- The distances of all the centroids, in any order, name all the partitions.
perm_of_ids :
    (parts : List (List ℤ)) (ds ds' : List CentDist)
    → map (λ (p : CentDist). p.idx) ds ≡ nats 0 (length parts)
    → Perm ds' ds
    → Perm (concat (map (λ (p : CentDist). nth [] parts p.idx) ds')) (concat parts)
perm_of_ids parts ds ds' ids p =
    let same : map (λ (p : CentDist). nth [] parts p.idx) ds ≡ parts =
      map-map_lem (nth [] parts) ds
      ∙ ap (map (nth [] parts)) ids
      ∙ map-nats [] (nth [] parts) 0 parts (λ j. ap (nth [] parts) (omega arith)) in
    concat-perm (subst (Perm _) same (Perm.map (λ (p : CentDist). nth [] parts p.idx) p))

hit-seq : (rs : List SearchResult) (n : ℕ) → length rs ≡ n → map (hit rs) (seq 0 n) ≡ rs
hit-seq rs n e =
    map-seq (hit rs) 0 n
    ∙ ap (λ k. map (nth no_result rs) (nats 0 k)) (sym e)
    ∙ map-nats no_result (nth no_result rs) 0 rs (λ j. ap (nth no_result rs) (omega arith))

IsPosition-prop : (n : ℕ) (z : ℤ) → IsProp (IsPosition n z)
IsPosition-prop n (pos i) = le_prop
IsPosition-prop n (negsuc i) = ⊥_prop

seq-IsPosition : (i k n : ℕ) → i + k ≤ n → All (IsPosition n) (seq i k)
seq-IsPosition i zero n h = tt
seq-IsPosition i (suc k) n h = (omega arith, seq-IsPosition (suc i) k n (omega arith))

All-concat_inv {ℓ κ} :
    {A : Type ℓ} (P : A → Type κ) (ls : List (List A)) → All P (concat ls) → All (All P) ls
All-concat_inv P [] h = tt
All-concat_inv {A} P (l ∷ ls) h = (first l h, All-concat_inv P ls (later l h))
  where
    first : (l : List A) → All P (l ++ concat ls) → All P l
    first [] h = tt
    first (x ∷ l) h = (h.0, first l h.1)

    later : (l : List A) → All P (l ++ concat ls) → All P (concat ls)
    later [] h = h
    later (x ∷ l) h = later l h.1

ids_bound :
    (i k n : ℕ) (ds : List CentDist)
    → map (λ (p : CentDist). p.idx) ds ≡ nats i k
    → i + k ≤ n
    → All (λ p. p.idx < n) ds
ids_bound i k n [] e h = tt
ids_bound i zero n (p ∷ ds) e h = cc
ids_bound i (suc k) n (p ∷ ds) e h =
    let head : p.idx ≡ i = cc in
    let tail : map (λ (p : CentDist). p.idx) ds ≡ nats (suc i) k = cc in
    (omega arith, ids_bound (suc i) k n ds tail (omega arith))

length_of_ids :
    (i k : ℕ) (ds : List CentDist) → map (λ (p : CentDist). p.idx) ds ≡ nats i k → length ds ≡ k
length_of_ids i k ds e =
    sym (length-map (λ (p : CentDist). p.idx) ds) ∙ ap length e ∙ length-nats i k
  where
    length-nats : (i k : ℕ) → length (nats i k) ≡ k
    length-nats i zero = refl
    length-nats i (suc k) = ap suc (length-nats (suc i) k)

module _ (m : Arithmetic) (query : List ℕ) (metric : DistanceMetric) (vectors : List VectorRecord)
    (rs : List SearchResult) (scores : AreScores m query metric vectors rs)
    (total : IsTotalMetric metric) (few : length vectors < 2 ^ 31) where
  -- What a scan of all the partitions collects
  scan_all :
      (near : Sorter CentDist by_dist) (k : ℕ) (centroids : List (List ℕ)) (cs : List ℕ)
      → AreLong (length query) centroids
      → length centroids ≡ k
      → length cs ≡ length vectors
      → All (λ c. c < k) cs
      → (ds : List CentDist) × (all : List SearchResult) × (centroid_distances m query metric k 0
            centroids
          ≡ ok ds)
        × (scan_probes m query metric vectors (group 0 cs (replicate k [])) (take k (near.slice ds))
            ≡ ok all)
        × Perm all rs
  scan_all near k centroids cs dims size each bound =
      let parts = group 0 cs (replicate k []) in
      let parts_size : length parts ≡ k =
        length-group 0 cs (replicate k []) ∙ length-replicate k [] in
      let grouped : Perm (concat parts) (seq 0 (length vectors)) =
        subst (Perm (concat parts))
          (ap (λ l. l ++ seq 0 (length cs)) (concat-replicate-nil k) ∙ ap (seq 0) each)
          (group-perm 0 cs (replicate k [])
            (subst (λ n. All (λ c. c < n) cs) (sym (length-replicate k [])) bound) (omega arith)) in
      let valid : All (All (IsPosition (length vectors))) parts =
        All-concat_inv (IsPosition (length vectors)) parts (
          All-perm (IsPosition (length vectors)) (IsPosition-prop (length vectors)) _ _
            (Perm.symm grouped)
            (seq-IsPosition 0 (length vectors) (length vectors) (omega arith))) in
      let (ds, taken, ids) =
        centroid_distances_total m query metric k 0 centroids total dims size in
      let whole : take k (near.slice ds) ≡ near.slice ds =
        take_all k (near.slice ds)
          (omega (arith, length-perm _ _ (near.slice-perm ds), length_of_ids 0 k ds ids)) in
      let inside : All (λ p. p.idx < length parts) (near.slice ds) =
        All-perm (λ p. p.idx < length parts) (λ p. le_prop) ds (near.slice ds)
          (Perm.symm (near.slice-perm ds)) (ids_bound 0 k (length parts) ds ids (omega arith)) in
      (
        ds,
        map (hit rs)
            (concat (map (part_of m query metric vectors rs scores parts) (near.slice ds))),
        taken,
        rw whole
            (scan_probes-map m query metric vectors rs scores parts (near.slice ds) valid inside),
        subst (Perm _)
            (hit-seq rs (length vectors) (length-AreScores m query metric vectors rs scores))
            (Perm.map (hit rs) (
              Perm.trans
                (perm_of_ids parts ds (near.slice ds) (ids ∙ ap (nats 0) (sym parts_size))
                  (near.slice-perm ds))
                grouped)),
      )

module _ (m : Arithmetic) (s : Sorter SearchResult by_score) (near : Sorter CentDist by_dist) where
  abbrev Finds : List VectorRecord → List ℕ → ℕ → DistanceMetric → IvfFlatIndex → Type 0
  Finds vectors query k metric idx =
      probe_count idx ≡ idx.num_partitions
      → length query ≡ idx.dim
      → (rs : List SearchResult) × (found : List SearchResult) × (far : List SearchResult)
        × AreScores m query metric vectors rs
        × (ivf_search m query metric s near false idx (pos (suc k)) ≡ ok found)
        × (AreScored rs → IsNearest (suc k) rs found far)

  built-Finds :
      (vectors : List VectorRecord) (old : IvfFlatIndex) (query : List ℕ) (k : ℕ)
      (metric : DistanceMetric) (dim parts : ℕ) (centroids : List (List ℕ)) (cs : List ℕ)
      → IsTotalMetric metric
      → length vectors < 2 ^ 31
      → 0 < length vectors
      → HaveDim dim vectors
      → AreLong dim centroids
      → length centroids ≡ parts
      → length cs ≡ length vectors
      → All (λ c. c < parts) cs
      → Finds vectors query k metric (built_index vectors old dim parts centroids cs)
  unfolding ivf_search
  built-Finds vectors old query k metric dim parts centroids cs total few stocked dims long size
        each bound probes fits =
      let (rs, _, scores) = score_all_total m query metric vectors total (rw fits dims) in
      let (ds, all, taken, scanned, same) =
        scan_all m query metric vectors rs scores total few near parts centroids cs (rw fits long)
          size each bound in
      (
        rs,
        top_k s all (pos (suc k)),
        drop (suc k) (s.slice all),
        scores,
        rw
            (
              nonempty (length vectors) stocked,
              fits,
              ==_refl dim,
              positive k,
              taken,
              probes,
              scanned,
            )
            refl,
        λ v. IsNearest-perm (suc k) all rs _ _ same (
            top_k-IsNearest s k all
              (All-perm (λ r. scored r ≡ true) (λ r. Bool-set _ _) rs all (Perm.symm same) v)),
      )

  -- On an index that was built from fewer than 2^31 vectors, by a search that probes all the
  -- partitions: for a query of the vectors' dimension, by the Euclidean or the dot product metric
  -- and at a positive k, it succeeds, and where no score is NaN its result is the k nearest of the
  -- scores of all the vectors, in ascending order, as for the flat index.
  pub ivf_search-IsNearest :
      (a : Arithmetic32) (draw : ℕ → ℕ → ℕ) (vectors : List VectorRecord) (old idx : IvfFlatIndex)
      (query : List ℕ) (k : ℕ) (metric : DistanceMetric)
      → IsTotalMetric metric
      → length vectors < 2 ^ 31
      → ivf_build m a draw false vectors old ≡ ok idx
      → probe_count idx ≡ idx.num_partitions
      → length query ≡ idx.dim
      → (rs : List SearchResult) × (found : List SearchResult) × (far : List SearchResult)
        × AreScores m query metric vectors rs
        × (ivf_search m query metric s near false idx (pos (suc k)) ≡ ok found)
        × (AreScored rs → IsNearest (suc k) rs found far)
  ivf_search-IsNearest a draw vectors old idx query k metric total few built =
      let (dim, parts, centroids, cs, checked, size, long, dims, _, each, bound, e) =
        ivf_build_inv m a draw false vectors old idx built in
      let (_, stocked, _) = checked_dim_sound false vectors checked in
      subst (Finds vectors query k metric) (sym e) (
        built-Finds vectors old query k metric dim parts centroids cs total few stocked dims long
          size each bound)
