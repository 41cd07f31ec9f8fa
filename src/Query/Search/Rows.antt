-- ===== src/Query/Search/Rows.antt =====
-- query/brute_force.go: one round of the loop over the rows of a fragment.
use golance_db.Prelude.{
  ℕ, zero, suc, ◌≡◌, refl, sym, List, [], ◌∷◌, length, drop, take, true, false, Result, ok, ◌>>=◌,
  >>=-eq-ok, ok-injective, ltb, arith, length-drop, ltb→lt, lt→ltb,
}
use golance_db.Prelude.Int.{ℤ, pos, ◌+ℤ◌}
use golance_db.Float.{Arithmetic}
use golance_db.Distance.{SearchResult, distance}
use golance_db.Query.Search.{VectorQuery, scan_rows}

module _ (m : Arithmetic) (q : VectorQuery) (dim : ℕ) where
  -- Where the floats have run out, no row is left.
  pub scan_rows_short :
      (n : ℕ) (id : ℤ) (rest : List ℕ)
      → ltb (length rest) dim ≡ true
      → scan_rows m q dim n id rest ≡ ok []
  unfolding scan_rows
  scan_rows_short zero id rest h = refl
  scan_rows_short (suc n) id rest h = rw h refl

  pub short-drop :
      (rest : List ℕ) → ltb (length rest) dim ≡ true → ltb (length (drop dim rest)) dim ≡ true
  short-drop rest h = lt→ltb _ _ (omega (arith, ltb→lt _ _ h, length-drop dim rest))

  -- One row of each loop, by its tests
  unfoldable pub row_result : ℤ → List ℕ → Result (List SearchResult) → Result (List SearchResult)
  row_result id rest later = do
    dist ← distance m q.vector (take dim rest) q.metric
    results ← later
    ok (record { row_id = id; score = dist } ∷ results)

  pub scan_rows_long :
      (n : ℕ) (id : ℤ) (rest : List ℕ)
      → ltb (length rest) dim ≡ false
      → scan_rows m q dim (suc n) id rest
        ≡ row_result id rest (scan_rows m q dim n (id +ℤ pos 1) (drop dim rest))
  unfolding scan_rows row_result
  scan_rows_long n id rest s = rw s refl

  pub row_result_inv :
      (id : ℤ) (rest : List ℕ) (later : Result (List SearchResult)) (rs : List SearchResult)
      → row_result id rest later ≡ ok rs
      → (d : ℕ) × (rs' : List SearchResult) × (distance m q.vector (take dim rest) q.metric ≡ ok d)
        × (later ≡ ok rs')
        × (rs ≡ record { row_id = id; score = d } ∷ rs')
  unfolding row_result
  row_result_inv id rest later rs h =
      let (d, dh, h') = >>=-eq-ok (distance m q.vector (take dim rest) q.metric) _ h in
      let (rs', lh, h'') = >>=-eq-ok later _ h' in (d, rs', dh, lh, sym (ok-injective h''))

  pub row_result_ok :
      (id : ℤ) (rest : List ℕ) (later : Result (List SearchResult)) (d : ℕ) (rs : List SearchResult)
      → distance m q.vector (take dim rest) q.metric ≡ ok d
      → later ≡ ok rs
      → row_result id rest later ≡ ok (record { row_id = id; score = d } ∷ rs)
  unfolding row_result
  row_result_ok id rest later d rs dh lh = rw (dh, lh) refl
