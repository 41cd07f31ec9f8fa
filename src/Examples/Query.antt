-- ===== src/Examples/Query.antt =====
-- The query package at concrete inputs.
use golance_db.Prelude.{
  ℕ, suc, zero, ◌+◌, ◌-◌, ◌*◌, ◌/◌, ◌^◌, ◌≡◌, ◌≤◌, ◌&&◌, ◌||◌, refl, List, [], ◌∷◌, ◌++◌, drop,
  length, Bool, true, false, Option, none, some, Result, ok, err, read_failed, arith, Perm, concat,
  replicate, if◌then◌else◌,
}
use golance_db.Prelude.Int.{ℤ, pos, negsuc}
use golance_db.Prelude.Sort.{Sorter, insertion_sorter}
use golance_db.Bytes.{Bytes}
use golance_db.Float.{Arithmetic}
use golance_db.Distance.{DistanceMetric, SearchResult, by_score}
use golance_db.Distance.TopK.{IsNearest}
use golance_db.Encode.Compression.{Codec}
use golance_db.Query.Filter.{
  OpType, int64, float64, Operand, one, many, matches_condition, to_float64,
}
use golance_db.Prelude.{get_elem?}
use golance_db.Query.Filter.Operators.{condition, between-ge_le, le-lt_eq, nan_matches}
use golance_db.Query.Search.{VectorQuery, scan_rows, merge_top_k}
use golance_db.Query.Search.Results.{
  IsRow, scan_rows-IsRow, length-scan_rows, merge_top_k-IsNearest,
}

-- An arithmetic on small natural numbers in place of that of the machine
abbrev pub small_floats : Arithmetic
small_floats = record {
  widen = λ x. x;
  of_int = of_int;
  add = ◌+◌;
  sub = ◌-◌;
  mul = ◌*◌;
  div = ◌/◌;
  neg = λ x. x;
  sqrt = λ x. x;
}
  where
    of_int : ℤ → ℕ
    of_int (pos n) = n
    of_int (negsuc n) = 0

abbrev pub no_codec : Codec
no_codec = record {
  zstd_encode = λ d. none;
  zstd_decode = λ d. none;
  lz4_encode = λ d. none;
  lz4_decode = λ d. none;
}

abbrev pub sorter : Sorter SearchResult by_score
sorter = insertion_sorter by_score

abbrev pub vector_query : VectorQuery
vector_query = record {
  vector = 4 ∷ 4 ∷ [];
  column = 118 ∷ [];
  metric = DistanceMetric.dot_product;
  num_partitions = pos 0;
  n_probes = pos 0;
}

-- Two vectors of two floats, and a float over
abbrev floats : List ℕ
floats = 3 ∷ 1 ∷ 1 ∷ 1 ∷ 9 ∷ []

abbrev scanned : List SearchResult
scanned = record { row_id = pos 10; score = 16 } ∷ record { row_id = pos 11; score = 8 } ∷ []

scan : scan_rows small_floats vector_query 2 3 (pos 10) floats ≡ ok scanned
unfolding scan_rows golance_db.Prelude.Int.◌+ℤ◌
scan = refl

scan_two : scan_rows small_floats vector_query 2 2 (pos 10) floats ≡ ok scanned
unfolding scan_rows golance_db.Prelude.Int.◌+ℤ◌
scan_two = refl

scan_rows-IsRow_example :
    IsRow small_floats vector_query 2 (pos 10) floats 1 (record { row_id = pos 11; score = 8 })
scan_rows-IsRow_example =
    scan_rows-IsRow small_floats vector_query 2 3 (pos 10) floats scanned scan 1
      (record { row_id = pos 11; score = 8 }) refl

length-scan_rows_example : length scanned ≡ 2
length-scan_rows_example =
    length-scan_rows small_floats vector_query 2 2 (pos 10) floats scanned (omega arith) scan_two

merge_top_k-IsNearest_example :
    IsNearest 1
      (concat (scanned ∷ scanned ∷ []))
      (merge_top_k sorter (scanned ∷ scanned ∷ []) (pos 1))
      (drop 1 (sorter.slice (concat (scanned ∷ scanned ∷ []))))
merge_top_k-IsNearest_example =
    merge_top_k-IsNearest sorter 0 (scanned ∷ scanned ∷ []) (refl, (refl, (refl, (refl, tt))))

abbrev pub age : Bytes
age = 97 ∷ []

between-ge_le_example :
    matches_condition small_floats
      (int64 (pos 5))
      (condition age OpType.between (many (int64 (pos 3) ∷ float64 7 ∷ [])))
    ≡ (matches_condition small_floats
          (int64 (pos 5))
          (condition age OpType.ge (one (int64 (pos 3))))
        && matches_condition small_floats
            (int64 (pos 5))
            (condition age OpType.le (one (float64 7))))
between-ge_le_example = between-ge_le small_floats age (int64 (pos 5)) (int64 (pos 3)) (float64 7)

abbrev five_against : OpType → Bool
five_against op =
    matches_condition small_floats (int64 (pos 5)) (condition age op (one (float64 7)))

converted : (x : ℕ) → to_float64 small_floats (int64 (pos x)) ≡ some x
unfolding to_float64
converted x = refl

is_float : (x : ℕ) → to_float64 small_floats (float64 x) ≡ some x
unfolding to_float64
is_float x = refl

le-lt_eq_example :
    (five_against OpType.le ≡ (five_against OpType.lt || five_against OpType.eq))
    × (five_against OpType.ge ≡ (five_against OpType.gt || five_against OpType.eq))
    × (five_against OpType.ne ≡ (five_against OpType.lt || five_against OpType.gt))
le-lt_eq_example =
    le-lt_eq small_floats age (int64 (pos 5)) (float64 7) 5 7 (converted 5) (is_float 7) refl refl

abbrev nan : ℕ
nan = 2047 * 2 ^ 52 + 1

abbrev nan_against : OpType → Operand → Bool
nan_against op value = matches_condition small_floats (float64 nan) (condition age op value)

nan_matches_example :
    (nan_against OpType.eq (one (float64 3)) ≡ false)
    × (nan_against OpType.lt (one (float64 3)) ≡ false)
    × (nan_against OpType.le (one (float64 3)) ≡ true)
    × (nan_against OpType.ge (one (float64 3)) ≡ true)
    × (nan_against OpType.between (many (float64 3 ∷ float64 7 ∷ [])) ≡ true)
nan_matches_example =
    nan_matches small_floats age (float64 nan) (float64 3) (float64 7) nan 3 7 (is_float nan)
      (is_float 3) (is_float 7) refl
