-- ===== src/Query/Hybrid/Rows.antt =====
-- query/hybrid_search.go: the loop of filterFirst against that of the full scan.
use golance_db.Prelude.{
  ℕ, zero, suc, ◌≡◌, refl, sym, ap, ◌∙◌, List, [], ◌∷◌, ◌++◌, length, drop, Bool, true, false, ok,
  ◌>>=◌, >>=-eq-ok, ok-injective, ltb, inl, inr, Bool-cases,
}
use golance_db.Prelude.Int.{ℤ, pos, ◌+ℤ◌}
use golance_db.Float.{Arithmetic}
use golance_db.Distance.{SearchResult}
use golance_db.Encode.Types.{as_float32s}
use golance_db.Encode.Compression.{Codec}
use golance_db.Encode.MiniBlock.{rounds}
use golance_db.Table.Types.{Fragment}
use golance_db.Query.Reader.{FragmentReader, read_column, row_count}
use golance_db.Query.Search.{VectorQuery, scan_rows, scan_fragments, Context}
use golance_db.Query.Search.Rows.{
  scan_rows_short, short-drop, scan_rows_long, row_result, row_result_inv, row_result_ok,
}
use golance_db.Query.Hybrid.{select, scan_matching, scan_matching_fragments}

module _ (m : Arithmetic) (q : VectorQuery) (dim : ℕ) where
  module _ (keep : ℤ → Bool) where
    matching_skip :
        (n : ℕ) (id : ℤ) (rest : List ℕ)
        → keep id ≡ false
        → scan_matching m q dim keep (suc n) id rest
          ≡ scan_matching m q dim keep n (id +ℤ pos 1) (drop dim rest)
    unfolding scan_matching
    matching_skip n id rest k = rw k refl

    matching_short :
        (n : ℕ) (id : ℤ) (rest : List ℕ)
        → keep id ≡ true
        → ltb (length rest) dim ≡ true
        → scan_matching m q dim keep (suc n) id rest ≡ ok []
    unfolding scan_matching
    matching_short n id rest k s = rw (k, s) refl

    matching_long :
        (n : ℕ) (id : ℤ) (rest : List ℕ)
        → keep id ≡ true
        → ltb (length rest) dim ≡ false
        → scan_matching m q dim keep (suc n) id rest
          ≡ row_result m q dim id rest (scan_matching m q dim keep n (id +ℤ pos 1) (drop dim rest))
    unfolding scan_matching row_result
    matching_long n id rest k s = rw (k, s) refl

    -- Where the full scan of the rows succeeds, the scan of the matching rows returns those of
    -- its results that match.
    pub scan_matching-eq :
        (n : ℕ) (id : ℤ) (rest : List ℕ) (rs : List SearchResult)
        → scan_rows m q dim n id rest ≡ ok rs
        → scan_matching m q dim keep n id rest ≡ ok (select keep rs)
    unfolding scan_rows scan_matching select
    scan_matching-eq zero id rest rs h = ap (λ l. ok (select keep l)) (ok-injective h)
    scan_matching-eq (suc n) id rest rs h = elim (Bool-cases (ltb (length rest) dim)) [
      | inl s ↦
          let none_left = ok-injective (sym (scan_rows_short m q dim (suc n) id rest s) ∙ h) in
          rw (sym none_left) (elim (Bool-cases (keep id)) [
            | inl k ↦ matching_short n id rest k s
            | inr k ↦
                matching_skip n id rest k
                ∙ scan_matching-eq n (id +ℤ pos 1) (drop dim rest) []
                    (scan_rows_short m q dim n _ _ (short-drop m q dim rest s))
          ])
      | inr s ↦
          let (d, rs', dh, lh, e) =
            row_result_inv m q dim id rest _ rs (sym (scan_rows_long m q dim n id rest s) ∙ h) in
          let later = scan_matching-eq n (id +ℤ pos 1) (drop dim rest) rs' lh in
          elim (Bool-cases (keep id)) [
            | inl k ↦
                rw (matching_long n id rest k s, row_result_ok m q dim id rest _ d _ dh later)
                  (rw (e, k) refl)
            | inr k ↦ rw (matching_skip n id rest k, later) (rw (e, k) refl)
          ]
    ]

pub select_append :
    (keep : ℤ → Bool) (rs ts : List SearchResult)
    → select keep (rs ++ ts) ≡ select keep rs ++ select keep ts
unfolding select
select_append keep [] ts = refl
select_append keep (r ∷ rs) ts = elim (Bool-cases (keep r.row_id)) [
  | inl k ↦ rw k (ap (◌∷◌ r) (select_append keep rs ts))
  | inr k ↦ rw k (select_append keep rs ts)
]

-- The same of the loops over the fragments, where the context is never cancelled: they ask it at
-- different counts.
module _ (m : Arithmetic) (q : VectorQuery) (dim : ℕ) (keep : ℤ → Bool) (ctx : Context)
    (live : (n : ℕ) → ctx n ≡ false) (c : Codec) (r : FragmentReader) (id : ℤ) where
  pub scan_matching_fragments-eq :
      (asked asked' : ℕ) (offset : ℤ) (frags : List Fragment) (rs : List SearchResult)
      → scan_fragments m q dim ctx c r id asked offset frags ≡ ok rs
      → scan_matching_fragments m q dim keep ctx c r id asked' offset frags ≡ ok (select keep rs)
  unfolding scan_fragments scan_matching_fragments select
  scan_matching_fragments-eq asked asked' offset [] rs h =
      ap (λ l. ok (select keep l)) (ok-injective h)
  scan_matching_fragments-eq asked asked' offset (frag ∷ frags) rs h =
      let (column, ch, h₁) = >>=-eq-ok (read_column c r frag id) _ (sym entered ∙ h) in
      let (floats, fh, h₂) = >>=-eq-ok (as_float32s column) _ h₁ in
      let (rows, rh, h₃) =
        >>=-eq-ok (scan_rows m q dim (rounds (row_count frag)) offset floats) _ h₂ in
      let (more, mh, h₄) =
        >>=-eq-ok (scan_fragments m q dim ctx c r id (suc asked) (offset +ℤ row_count frag) frags) _
          h₃ in
      rw
        (
          live asked',
          ch,
          fh,
          scan_matching-eq m q dim keep (rounds (row_count frag)) offset floats rows rh,
          scan_matching_fragments-eq (suc asked) (suc asked') (offset +ℤ row_count frag) frags more
              mh,
        )
        (ap ok (sym (select_append keep rows more))
          ∙ ap (λ l. ok (select keep l)) (ok-injective h₄))
    where
      entered : scan_fragments m q dim ctx c r id asked offset (frag ∷ frags) ≡ (do
        column ← read_column c r frag id
        floats ← as_float32s column
        results ← scan_rows m q dim (rounds (row_count frag)) offset floats
        more ← scan_fragments m q dim ctx c r id (suc asked) (offset +ℤ row_count frag) frags
        ok (results ++ more))
      entered = rw (live asked) refl
