-- ===== src/Distance.antt =====
-- distance/distance.go and distance/types.go.
pub mod TopK
use golance_db.Prelude.{
  ℕ, zero, suc, Bool, List, [], ◌∷◌, length, take, ltb, ◌==◌, ◌||◌, if◌then◌else◌, Result, ok, err,
  ◌>>=◌, length_mismatch, zero_norm, unknown_metric,
}
use golance_db.Prelude.Int.{ℤ, pos, negsuc}
use golance_db.Prelude.Sort.{Sorter}
use golance_db.Float.{Arithmetic, f64_lt, f64_eq, one_bits}

pub data DistanceMetric : Type 0 where
  cosine euclidean dot_product : DistanceMetric
  unknown : ℤ → DistanceMetric

pub record SearchResult : Type 0 where
  pub row_id : ℤ
  pub score : ℕ

-- `results[i].Score < results[j].Score`
abbrev pub by_score : SearchResult → SearchResult → Bool
by_score r s = f64_lt r.score s.score

module _ (m : Arithmetic) where
  -- `sum += float64(a[i]) * float64(b[i])` for i in range of a
  unfoldable pub dot_loop : ℕ → List ℕ → List ℕ → ℕ
  dot_loop sum (x ∷ xs) (y ∷ ys) = dot_loop (m.add sum (m.mul (m.widen x) (m.widen y))) xs ys
  dot_loop sum _ _ = sum

  unfoldable pub square_loop : ℕ → List ℕ → List ℕ → ℕ
  square_loop sum (x ∷ xs) (y ∷ ys) =
      let d = m.sub (m.widen x) (m.widen y) in square_loop (m.add sum (m.mul d d)) xs ys
  square_loop sum _ _ = sum

  -- The three sums of the cosine loop are independent of one another.
  unfoldable pub cosine_distance : List ℕ → List ℕ → Result ℕ
  unfolding dot_loop
  cosine_distance a b =
      let dot = dot_loop 0 a b in
      let norm_a = dot_loop 0 a a in
      let norm_b = dot_loop 0 b b in
      if f64_eq norm_a 0 || f64_eq norm_b 0
      then err zero_norm
      else ok (m.sub one_bits (m.div dot (m.mul (m.sqrt norm_a) (m.sqrt norm_b))))

  -- The switch over the metric, for vectors of one length.
  unfoldable pub metric_distance : List ℕ → List ℕ → DistanceMetric → Result ℕ
  unfolding cosine_distance square_loop dot_loop
  metric_distance a b DistanceMetric.cosine = cosine_distance a b
  metric_distance a b DistanceMetric.euclidean = ok (m.sqrt (square_loop 0 a b))
  metric_distance a b DistanceMetric.dot_product = ok (m.neg (dot_loop 0 a b))
  metric_distance a b (DistanceMetric.unknown n) = err unknown_metric

  unfoldable pub distance : List ℕ → List ℕ → DistanceMetric → Result ℕ
  unfolding metric_distance
  distance a b metric =
      if length a == length b then metric_distance a b metric else err length_mismatch

  unfoldable pub distances : List ℕ → List (List ℕ) → DistanceMetric → Result (List ℕ)
  distances query [] metric = ok []
  distances query (v ∷ vs) metric = do
    d ← distance query v metric
    ds ← distances query vs metric
    ok (d ∷ ds)

-- `TopK`; the input is copied before it is sorted.
unfoldable pub top_k : Sorter SearchResult by_score → List SearchResult → ℤ → List SearchResult
top_k s results (negsuc n) = []
top_k s results (pos zero) = []
top_k s results (pos (suc k)) =
    if length results == 0
    then []
    else let cp = s.slice results in
      if ltb (length cp) (suc k) then take (length cp) cp else take (suc k) cp
