-- ===== src/Query/Hybrid.antt =====
-- query/hybrid_search.go and the query of query/types.go.
mod Rows
pub mod Equivalence
pub mod Limit
use golance_db.Prelude.{
  ℕ, zero, suc, ◌+◌, List, [], ◌∷◌, ◌++◌, length, take, drop, map, Bool, true, false, not, ◌||◌,
  Option, none, some, Result, ok, err, ◌>>=◌, if◌then◌else◌, ltb, canceled,
}
use golance_db.Prelude.Int.{ℤ, pos, ◌+ℤ◌, eqb_ℤ}
use golance_db.Prelude.Sort.{Sorter}
use golance_db.Bytes.{Bytes}
use golance_db.Float.{Arithmetic}
use golance_db.Distance.{SearchResult, by_score, distance}
use golance_db.Encode.Types.{as_float32s}
use golance_db.Encode.Compression.{Codec}
use golance_db.Encode.MiniBlock.{rounds}
use golance_db.Table.Types.{id_of, dimension_of, Fragment, Manifest}
use golance_db.Query.Reader.{FragmentReader, read_column, row_count}
use golance_db.Query.Filter.{ScalarFilter, ScanFilter, filter}
use golance_db.Query.Search.{
  VectorQuery, BruteForceSearch, Context, searched_field, search, apply_limit,
}

pub data SearchStrategy : Type 0 where
  filter_first search_first : SearchStrategy
  unknown : ℤ → SearchStrategy

pub record Query : Type 0 where
  pub vector : Option VectorQuery
  pub scalar_filter : Option ScalarFilter
  pub limit : ℤ
  pub columns : List Bytes
  pub timeout : ℤ

pub record HybridSearch : Type 0 where
  pub brute_force : BruteForceSearch
  pub scan_filter : ScanFilter

-- `matching[id]`, of the map made from the row ids
unfoldable pub matching : List ℤ → ℤ → Bool
matching [] id = false
matching (x ∷ xs) id = eqb_ℤ x id || matching xs id

-- `filtered`: the results whose row id matches
unfoldable pub select : (ℤ → Bool) → List SearchResult → List SearchResult
select keep [] = []
select keep (r ∷ rs) = let rest = select keep rs in if keep r.row_id then r ∷ rest else rest

module _ (m : Arithmetic) (q : VectorQuery) (dim : ℕ) (keep : ℤ → Bool) where
  -- The loop of `filterFirst` over the rows, as in the full scan, but for the rows that are
  -- skipped (`continue`)
  unfoldable pub scan_matching : ℕ → ℤ → List ℕ → Result (List SearchResult)
  unfolding distance
  scan_matching zero row_id rest = ok []
  scan_matching (suc n) row_id rest =
      let later = scan_matching n (row_id +ℤ pos 1) (drop dim rest) in
      if not (keep row_id) then later else if ltb (length rest) dim then ok [] else do
        dist ← distance m q.vector (take dim rest) q.metric
        results ← later
        ok (record { row_id = row_id; score = dist } ∷ results)

  unfoldable pub scan_matching_fragments :
      Context → Codec → FragmentReader → ℤ → ℕ → ℤ → List Fragment → Result (List SearchResult)
  unfolding scan_matching read_column
  scan_matching_fragments ctx c r id asked row_offset [] = ok []
  scan_matching_fragments ctx c r id asked row_offset (frag ∷ frags) =
      let later =
        scan_matching_fragments ctx c r id (suc asked) (row_offset +ℤ row_count frag) frags in
      if ctx asked then err canceled else do
        column ← read_column c r frag id
        floats ← as_float32s column
        results ← scan_matching (rounds (row_count frag)) row_offset floats
        more ← later
        ok (results ++ more)

module _ (m : Arithmetic) (s : Sorter SearchResult by_score) (ctx : Context) (c : Codec)
    (h : HybridSearch) (manifest : Manifest) where
  -- What `filterFirst` does once it has the row ids; the context has been asked once for each
  -- fragment by then.
  unfoldable pub search_matching : VectorQuery → ℤ → List ℤ → Result (List SearchResult)
  unfolding searched_field scan_matching_fragments matching apply_limit
  search_matching v limit [] = ok []
  search_matching v limit (id ∷ ids) = do
    field ← searched_field h.brute_force.schema v
    candidates ←
        scan_matching_fragments m v (rounds (dimension_of field)) (matching (id ∷ ids)) ctx c
          h.brute_force.reader (id_of field) (length manifest.fragments) (pos 0) manifest.fragments
    ok (apply_limit (s.slice candidates) limit)

  unfoldable pub filter_first_search : VectorQuery → ScalarFilter → ℤ → Result (List SearchResult)
  unfolding search_matching filter
  filter_first_search v f limit = do
    row_ids ← filter m c h.scan_filter ctx 0 manifest f
    search_matching v limit row_ids

  unfoldable pub search_first_search : VectorQuery → ScalarFilter → ℤ → Result (List SearchResult)
  unfolding search filter matching select apply_limit
  search_first_search v f limit = do
    results ← search m s ctx c h.brute_force manifest v
    row_ids ← filter m c h.scan_filter ctx (length manifest.fragments) manifest f
    ok (apply_limit (select (matching row_ids) results) limit)

  -- `SearchWithStrategy`
  unfoldable pub search_with_strategy : Query → SearchStrategy → Result (List SearchResult)
  unfolding search filter apply_limit filter_first_search search_first_search
  search_with_strategy q strategy = elim q.vector [
    | none ↦ elim q.scalar_filter [
      | none ↦ ok []
      | some f ↦ do
        row_ids ← filter m c h.scan_filter ctx 0 manifest f
        ok (apply_limit (map (λ id. record { row_id = id; score = 0 }) row_ids) q.limit)
    ]
    | some v ↦ elim q.scalar_filter [
      | none ↦ do
        results ← search m s ctx c h.brute_force manifest v
        ok (apply_limit results q.limit)
      | some f ↦ elim strategy [
        | SearchStrategy.search_first ↦ search_first_search v f q.limit
        | SearchStrategy.filter_first ↦ filter_first_search v f q.limit
        | SearchStrategy.unknown n ↦ filter_first_search v f q.limit
      ]
    ]
  ]

  -- `HybridSearch.Search`
  unfoldable pub hybrid_search : Query → Result (List SearchResult)
  unfolding search_with_strategy
  hybrid_search q = search_with_strategy q SearchStrategy.filter_first
