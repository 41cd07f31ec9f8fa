-- ===== src/Query/Search.antt =====
-- query/brute_force.go, query/reranker.go and the vector query of query/types.go.
pub mod Rows
pub mod Results
use golance_db.Prelude.{
  ℕ, zero, suc, ◌+◌, ◌==◌, List, [], ◌∷◌, ◌++◌, length, take, drop, Bool, true, false, Option, none,
  some, Result, ok, err, ◌>>=◌, if◌then◌else◌, ltb, concat, canceled, column_not_found,
  not_vector_column, bad_dimension, length_mismatch,
}
use golance_db.Prelude.Int.{ℤ, pos, negsuc, ltb_ℤ, ◌+ℤ◌}
use golance_db.Prelude.Sort.{Sorter}
use golance_db.Bytes.{Bytes}
use golance_db.Float.{Arithmetic}
use golance_db.Distance.{DistanceMetric, SearchResult, by_score, distance}
use golance_db.Encode.Types.{DataType, Column, as_float32s}
use golance_db.Encode.Compression.{Codec}
use golance_db.Encode.MiniBlock.{rounds}
use golance_db.Table.Types.{
  Field, id_of, type_of, dimension_of, Schema, field_by_name, Fragment, Manifest,
}
use golance_db.Query.Reader.{FragmentReader, read_column, row_count, found}

pub record VectorQuery : Type 0 where
  pub vector : List ℕ
  pub column : Bytes
  pub metric : DistanceMetric
  pub num_partitions : ℤ
  pub n_probes : ℤ

pub record BruteForceSearch : Type 0 where
  pub reader : FragmentReader
  pub schema : Schema

-- `field.Type != encode.TypeFixedSizeList`
abbrev pub is_vector_type : DataType → Bool
is_vector_type DataType.fixed_size_list = true
is_vector_type _ = false

-- `vectorField`
unfoldable pub vector_field : Schema → Bytes → Result Field
unfolding field_by_name
vector_field schema column = do
  field ← found (field_by_name schema column) (err column_not_found)
  if is_vector_type (type_of field)
      then if ltb_ℤ (pos 0) (dimension_of field) then ok field else err bad_dimension
      else err not_vector_column

-- The field that is searched, once the query's vector has its length
unfoldable pub searched_field : Schema → VectorQuery → Result Field
unfolding vector_field
searched_field schema q = do
  field ← vector_field schema q.column
  if length q.vector == rounds (dimension_of field) then ok field else err length_mismatch

-- The answers of `ctx.Err()`, by how often it has been asked
abbrev pub Context : Type 0
Context = ℕ → Bool

module _ (m : Arithmetic) (q : VectorQuery) (dim : ℕ) where
  -- The rows of a fragment: the row's id, and the floats from the row's first on. A fragment
  -- with fewer floats than rows ends the loop (`break`). Row ids do not reach 2^63.
  unfoldable pub scan_rows : ℕ → ℤ → List ℕ → Result (List SearchResult)
  unfolding distance
  scan_rows zero row_id rest = ok []
  scan_rows (suc n) row_id rest =
      let later = scan_rows n (row_id +ℤ pos 1) (drop dim rest) in
      if ltb (length rest) dim then ok [] else do
        dist ← distance m q.vector (take dim rest) q.metric
        results ← later
        ok (record { row_id = row_id; score = dist } ∷ results)

  -- The fragments: `asked` counts the questions to the context.
  unfoldable pub scan_fragments :
      Context → Codec → FragmentReader → ℤ → ℕ → ℤ → List Fragment → Result (List SearchResult)
  unfolding scan_rows read_column
  scan_fragments ctx c r id asked row_offset [] = ok []
  scan_fragments ctx c r id asked row_offset (frag ∷ frags) =
      let later = scan_fragments ctx c r id (suc asked) (row_offset +ℤ row_count frag) frags in
      if ctx asked then err canceled else do
        column ← read_column c r frag id
        floats ← as_float32s column
        results ← scan_rows (rounds (row_count frag)) row_offset floats
        more ← later
        ok (results ++ more)

-- `BruteForceSearch.Search`
unfoldable pub search :
    Arithmetic
    → Sorter SearchResult by_score
    → Context
    → Codec
    → BruteForceSearch
    → Manifest
    → VectorQuery
    → Result (List SearchResult)
unfolding searched_field scan_fragments
search m s ctx c b manifest q = do
  field ← searched_field b.schema q
  candidates ←
      scan_fragments m q (rounds (dimension_of field)) ctx c b.reader (id_of field) 0 (pos 0)
        manifest.fragments
  ok (s.slice candidates)

-- `applyLimit`
unfoldable pub apply_limit : List SearchResult → ℤ → List SearchResult
apply_limit results (negsuc n) = results
apply_limit results (pos zero) = results
apply_limit results (pos (suc k)) =
    if ltb (suc k) (length results) then take (suc k) results else results

-- `Reranker.MergeTopK`
unfoldable pub merge_top_k :
    Sorter SearchResult by_score → List (List SearchResult) → ℤ → List SearchResult
merge_top_k s sources (negsuc n) = s.slice (concat sources)
merge_top_k s sources (pos zero) = s.slice (concat sources)
merge_top_k s sources (pos (suc k)) =
    let all = s.slice (concat sources) in if ltb (suc k) (length all) then take (suc k) all else all
