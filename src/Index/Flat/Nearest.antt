-- ===== src/Index/Flat/Nearest.antt =====
-- What index/flat.go finds.
use mathlib.Core.Path.{subst}
use golance_db.Prelude.{
  ℕ, Error, ◌<◌, suc, ◌==◌, ◌≡◌, ◌≢◌, refl, ap, sym, Bool, true, false, List, [], ◌∷◌, ok, err,
  length, All, >>=-eq-ok, ok-injective, drop, arith, ==_refl, ==_iff, Bool-cases, inl, inr,
}
use golance_db.Prelude.Int.{pos, ltb_ℤ}
use golance_db.Prelude.Sort.{Sorter}
use golance_db.Float.{Arithmetic}
use golance_db.Distance.{
  SearchResult, DistanceMetric, by_score, top_k, distance, square_loop, dot_loop,
}
use golance_db.Distance.TopK.{IsNearest, AreScored, top_k-IsNearest}
use golance_db.Index.Types.{VectorRecord, checked_dim, check_lengths}
use golance_db.Index.Flat.{FlatIndex, flat_build, flat_search, score_all}

-- The results are those of the vectors, in order: row id and distance.
abbrev pub AreScores :
    Arithmetic → List ℕ → DistanceMetric → List VectorRecord → List SearchResult → Type 0
AreScores m query metric [] [] = Unit
AreScores m query metric (v ∷ vs) (r ∷ rs) =
    (r.row_id ≡ v.row_id)
    × (distance m query v.vector metric ≡ ok r.score)
    × AreScores m query metric vs rs
AreScores m query metric _ _ = ⊥

-- The metrics that give a distance for any two vectors of one length
abbrev pub IsTotalMetric : DistanceMetric → Type 0
IsTotalMetric DistanceMetric.euclidean = Unit
IsTotalMetric DistanceMetric.dot_product = Unit
IsTotalMetric _ = ⊥

err-ne-ok : {A : Type 0} {why : Error} {a : A} → err why ≢ ok a
err-ne-ok e = cc

pub nonempty : (n : ℕ) → 0 < n → (n == 0) ≡ false
nonempty n h = ground arith

pub positive : (k : ℕ) → ltb_ℤ (pos 0) (pos (suc k)) ≡ true
positive k = ground arith

pub total_distance :
    (m : Arithmetic) (a b : List ℕ) (metric : DistanceMetric)
    → IsTotalMetric metric
    → length a ≡ length b
    → (d : ℕ) × (distance m a b metric ≡ ok d)
unfolding distance
total_distance m a b DistanceMetric.cosine t e = elim t [ ]
total_distance m a b DistanceMetric.euclidean t e =
    (m.sqrt (square_loop m 0 a b), rw e (rw (==_refl (length b)) refl))
total_distance m a b DistanceMetric.dot_product t e =
    (m.neg (dot_loop m 0 a b), rw e (rw (==_refl (length b)) refl))
total_distance m a b (DistanceMetric.unknown n) t e = elim t [ ]

abbrev pub HaveDim : ℕ → List VectorRecord → Type 0
HaveDim dim = All (λ v. length v.vector ≡ dim)

check_lengths_sound :
    (dim : ℕ) (vs : List VectorRecord) {u : Unit {0}} → check_lengths dim vs ≡ ok u → HaveDim dim vs
unfolding check_lengths
check_lengths_sound dim [] h = tt
check_lengths_sound dim (v ∷ vs) h = elim (Bool-cases (length v.vector == dim)) [
  | inl e ↦ ((==_iff (length v.vector) dim).0 e, check_lengths_sound dim vs (rw e at h))
  | inr e ↦ absurd (err-ne-ok (rw e at h))
]

-- What the checks at the head of `Build` say of the vectors that they let pass
pub checked_dim_sound :
    (stopped : Bool) (vs : List VectorRecord) {dim : ℕ}
    → checked_dim stopped vs ≡ ok dim
    → (0 < dim) × (0 < length vs) × HaveDim dim vs
unfolding checked_dim
checked_dim_sound true vs h = cc
checked_dim_sound false [] h = cc
checked_dim_sound false (v ∷ vs) {dim} h = elim (Bool-cases (length v.vector == 0)) [
  | inl e ↦ absurd (err-ne-ok (rw e at h))
  | inr e ↦
      let (u, same, h') = >>=-eq-ok (check_lengths (length v.vector) (v ∷ vs)) _ (rw e at h) in
      let d : length v.vector ≡ dim = ok-injective h' in
      (
        ground arith,
        omega arith,
        subst (λ n. HaveDim n (v ∷ vs)) d (check_lengths_sound (length v.vector) (v ∷ vs) same),
      )
]

pub score_all_total :
    (m : Arithmetic) (query : List ℕ) (metric : DistanceMetric) (vs : List VectorRecord)
    → IsTotalMetric metric
    → HaveDim (length query) vs
    → (rs : List SearchResult) × (score_all m query metric vs ≡ ok rs)
      × AreScores m query metric vs rs
unfolding score_all
score_all_total m query metric [] t h = ([], refl, tt)
score_all_total m query metric (v ∷ vs) t h =
    let (d, e) = total_distance m query v.vector metric t (sym h.0) in
    let (rs, es, ss) = score_all_total m query metric vs t h.1 in
    (record { row_id = v.row_id; score = d } ∷ rs, rw (e, es) refl, (refl, e, ss))

flat_build_inv :
    (stopped : Bool) (vectors : List VectorRecord) (old idx : FlatIndex)
    → flat_build stopped vectors old ≡ ok idx
    → (idx.vectors ≡ vectors) × (0 < length vectors) × HaveDim idx.dim vectors
unfolding flat_build
flat_build_inv stopped vectors old idx h =
    let (dim, checked, e) = >>=-eq-ok (checked_dim stopped vectors) _ h in
    let (_, some_vector, same) = checked_dim_sound stopped vectors checked in
    (
      ap (λ i. i.vectors) (sym (ok-injective e)),
      some_vector,
      subst (λ n. HaveDim n vectors) (ap (λ i. i.dim) (ok-injective e)) same,
    )

-- On an index that was built from some vectors, a search for a query of their dimension, by the
-- Euclidean or the dot product metric and at a positive k, succeeds. Its result is the k nearest
-- of the scores of all the vectors, in ascending order, if none of these is NaN.
pub flat_search-IsNearest :
    (m : Arithmetic) (s : Sorter SearchResult by_score) (vectors : List VectorRecord)
    (old idx : FlatIndex) (query : List ℕ) (k : ℕ) (metric : DistanceMetric)
    → IsTotalMetric metric
    → flat_build false vectors old ≡ ok idx
    → length query ≡ idx.dim
    → (rs : List SearchResult) × (near : List SearchResult) × (far : List SearchResult) × AreScores
        m query metric vectors rs
      × (flat_search m s false idx query (pos (suc k)) metric ≡ ok near)
      × (AreScored rs → IsNearest (suc k) rs near far)
unfolding flat_search
flat_search-IsNearest m s vectors old idx query k metric total built fits =
    let (kept, some_vector, same) = flat_build_inv false vectors old idx built in
    let (rs, es, ss) = score_all_total m query metric vectors total (rw fits same) in
    (
      rs,
      top_k s rs (pos (suc k)),
      drop (suc k) (s.slice rs),
      ss,
      rw (kept, fits, ==_refl idx.dim, nonempty (length vectors) some_vector, positive k, es) refl,
      λ v. top_k-IsNearest s k rs v,
    )
