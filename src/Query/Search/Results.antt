-- ===== src/Query/Search/Results.antt =====
-- query/brute_force.go and query/reranker.go: what the results are.
use golance_db.Prelude.{
  ℕ, zero, suc, ◌+◌, ◌*◌, ◌≤◌, ◌≡◌, refl, sym, ap, ◌∙◌, List, [], ◌∷◌, length, take, drop, take_all,
  get_elem?, some, ok, ok-injective, ltb, le→not_ltb, arith, inl, inr, Bool-cases, concat,
  length-drop,
}
use golance_db.Prelude.Int.{int_laws, ℤ, pos, ◌+ℤ◌}
use golance_db.Prelude.Sort.{Sorter}
use golance_db.Float.{Arithmetic}
use golance_db.Distance.{SearchResult, by_score, distance}
use golance_db.Distance.TopK.{AreScored, IsNearest, prefix-IsNearest}
use golance_db.Query.Search.{VectorQuery, scan_rows, merge_top_k}
use golance_db.Query.Search.Rows.{row_result_inv, scan_rows_long, scan_rows_short}
use mathlib.Core.Path.{subst}

drop_nil : (n : ℕ) → drop {A = ℕ} n [] ≡ []
drop_nil zero = refl
drop_nil (suc n) = refl

drop-drop : (l : List ℕ) (a b c : ℕ) → c ≡ b + a → drop a (drop b l) ≡ drop c l
drop-drop [] a b c e = ap (drop a) (drop_nil b) ∙ drop_nil a ∙ sym (drop_nil c)
drop-drop (x ∷ l) a zero c e = ap (λ n. drop n (x ∷ l)) (omega arith)
drop-drop (x ∷ l) a (suc b) c e =
    let e' : suc (b + a) ≡ c = omega arith in
    drop-drop l a b (b + a) refl ∙ ap (λ n. drop n (x ∷ l)) e'

-- Result i of a fragment: it has the id of row i, and its score is the distance of the query
-- from the `dim` floats from the i-th multiple of `dim` on.
pub record IsRow (m : Arithmetic) (q : VectorQuery) (dim : ℕ) (id : ℤ) (floats : List ℕ) (i : ℕ)
    (r : SearchResult) : Type 0 where
  pub numbered : r.row_id ≡ id +ℤ pos i
  pub measured : distance m q.vector (take dim (drop (i * dim) floats)) q.metric ≡ ok r.score

module _ (m : Arithmetic) (q : VectorQuery) (dim : ℕ) where
  none_at : (i : ℕ) (r : SearchResult) → get_elem? [] i ≡ some r → ⊥
  none_at i r h = cc

  -- Row i of the later floats is row `suc i`.
  IsRow-next :
      (id : ℤ) (floats : List ℕ) (i : ℕ) (r : SearchResult)
      → IsRow m q dim (id +ℤ pos 1) (drop dim floats) i r
      → IsRow m q dim id floats (suc i) r
  IsRow-next id floats i r h = record {
    numbered = h.numbered ∙ next;
    measured =
        subst (λ l. distance m q.vector (take dim l) q.metric ≡ ok r.score)
          (drop-drop floats (i * dim) dim (suc i * dim) suc_mul) h.measured;
  }
    where
      next : id +ℤ pos 1 +ℤ pos i ≡ id +ℤ pos (suc i)
      next = grind int_laws

      suc_mul : suc i * dim ≡ dim + i * dim
      suc_mul = omega arith

  zero_mul : 0 * dim ≡ 0
  zero_mul = omega arith

  at-IsRow :
      (id : ℤ) (floats : List ℕ) (r : SearchResult) (d : ℕ) (rs : List SearchResult)
      → distance m q.vector (take dim floats) q.metric ≡ ok d
      → ((i : ℕ) → get_elem? rs i ≡ some r → IsRow m q dim (id +ℤ pos 1) (drop dim floats) i r)
      → (i : ℕ) → get_elem? (record { row_id = id; score = d } ∷ rs) i ≡ some r
      → IsRow m q dim id floats i r
  at-IsRow id floats r d rs dh later zero g =
      let same : record { row_id = id; score = d } ≡ r = cc in
      record {
        numbered = ap (λ r. r.row_id) (sym same) ∙ grind int_laws;
        measured =
            ap (λ n. distance m q.vector (take dim (drop n floats)) q.metric) zero_mul
            ∙ dh
            ∙ ap (λ r. ok r.score) same;
      }
  at-IsRow id floats r d rs dh later (suc i) g = IsRow-next id floats i r (later i g)

  -- Result i of a successful scan of a fragment's rows is row i: it has the id of the first row
  -- plus i, and its score is the distance of the query's vector from the floats of row i.
  pub scan_rows-IsRow :
      (n : ℕ) (id : ℤ) (floats : List ℕ) (rs : List SearchResult)
      → scan_rows m q dim n id floats ≡ ok rs
      → (i : ℕ) (r : SearchResult) → get_elem? rs i ≡ some r
      → IsRow m q dim id floats i r
  unfolding scan_rows
  scan_rows-IsRow zero id floats rs h i r g =
      absurd (none_at i r (subst (λ l. get_elem? l i ≡ some r) (sym (ok-injective h)) g))
  scan_rows-IsRow (suc n) id floats rs h i r g = elim (Bool-cases (ltb (length floats) dim)) [
    | inl s ↦
        let nothing = ok-injective (sym (scan_rows_short m q dim (suc n) id floats s) ∙ h) in
        absurd (none_at i r (subst (λ l. get_elem? l i ≡ some r) (sym nothing) g))
    | inr s ↦
        let (d, rs', dh, lh, e) =
          row_result_inv m q dim id floats _ rs (sym (scan_rows_long m q dim n id floats s) ∙ h) in
        at-IsRow id floats r d rs' dh
          (λ i. scan_rows-IsRow n (id +ℤ pos 1) (drop dim floats) rs' lh i r) i
          (subst (λ l. get_elem? l i ≡ some r) e g)
  ]

  -- Where there are floats for all the rows of a fragment, a scan of them that succeeds has as
  -- many results as there are rows.
  pub length-scan_rows :
      (n : ℕ) (id : ℤ) (floats : List ℕ) (rs : List SearchResult)
      → n * dim ≤ length floats
      → scan_rows m q dim n id floats ≡ ok rs
      → length rs ≡ n
  unfolding scan_rows
  length-scan_rows zero id floats rs room h = ap length (sym (ok-injective h))
  length-scan_rows (suc n) id floats rs room h =
      let enough : dim + n * dim ≤ length floats = omega arith in
      let s = le→not_ltb (length floats) dim (omega arith) in
      let (d, rs', dh, lh, e) =
        row_result_inv m q dim id floats _ rs (sym (scan_rows_long m q dim n id floats s) ∙ h) in
      let later =
        length-scan_rows n (id +ℤ pos 1) (drop dim floats) rs'
          (omega (arith, length-drop dim floats)) lh in
      ap length e ∙ ap suc later

-- At a positive k, where every score is a number, `MergeTopK` returns the k nearest of the
-- results of all sources, in ascending order: these and others, none of which is nearer.
pub merge_top_k-IsNearest :
    (s : Sorter SearchResult by_score)
    → (k : ℕ) (sources : List (List SearchResult)) → AreScored (concat sources)
    → IsNearest
        (suc k)
        (concat sources)
        (merge_top_k s sources (pos (suc k)))
        (drop (suc k) (s.slice (concat sources)))
unfolding merge_top_k
merge_top_k-IsNearest s k sources v =
    elim (Bool-cases (ltb (suc k) (length (s.slice (concat sources))))) [
      | inl e ↦ rw e (prefix-IsNearest s (suc k) (concat sources) v)
      | inr e ↦ rw e (
          subst
            (λ near.
              IsNearest (suc k) (concat sources) near (drop (suc k) (s.slice (concat sources))))
            (take_all (suc k) (s.slice (concat sources)) (ground arith))
            (prefix-IsNearest s (suc k) (concat sources) v))
    ]
