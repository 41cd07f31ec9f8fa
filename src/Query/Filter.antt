-- ===== src/Query/Filter.antt =====
-- query/scan_filter.go, and the filter types of query/types.go.
pub mod Operators
pub mod Rows
mod Numbering
pub mod Filtered
use golance_db.Prelude.{
  ℕ, zero, suc, ◌+◌, ◌==◌, List, [], ◌∷◌, length, Bool, true, false, not, ◌&&◌, ◌||◌, Option, none,
  some, Result, ok, err, panic, ◌>>=◌, if◌then◌else◌, canceled, column_not_found, unsupported_type,
  replicate, ◌++◌,
}
use golance_db.Prelude.Int.{ℤ, pos, negsuc, ltb_ℤ, ◌+ℤ◌}
use golance_db.Bytes.{Bytes, beq}
use golance_db.Float.{Arithmetic, f64_lt, f64_eq}
use golance_db.Encode.Types.{Column}
use golance_db.Encode.Compression.{Codec}
use golance_db.Table.Types.{id_of, Schema, field_by_name, Fragment, Manifest}
use golance_db.Query.Reader.{FragmentReader, read_column, row_count, found}

-- `OpType` is an int32: `unknown` is any value that has no name in the source.
pub data OpType : Type 0 where
  eq ne lt gt le ge in_list between : OpType
  unknown : ℤ → OpType

-- The values that an `interface{}` of a cell or of a condition holds: a Go number, a string, or
-- any other value that is not a slice or an array.
pub data Scalar : Type 0 where
  int int32 int64 : ℤ → Scalar
  float32 float64 : ℕ → Scalar
  text : Bytes → Scalar
  other : Scalar

-- A condition's value: one value, or the elements of a slice or an array, none of them a slice
pub data Operand : Type 0 where
  one : Scalar → Operand
  many : List Scalar → Operand

pub record ScalarCondition : Type 0 where
  pub column : Bytes
  pub operator : OpType
  pub value : Operand

pub record ScalarFilter : Type 0 where
  pub conditions : List ScalarCondition

-- `compareNumeric`'s int: -1, 1 or 0
pub data Comparison : Type 0 where
  less greater same : Comparison

abbrev pub is_less : Comparison → Bool
is_less Comparison.less = true
is_less _ = false

abbrev pub is_greater : Comparison → Bool
is_greater Comparison.greater = true
is_greater _ = false

-- Whether `ok &&` a test of the comparison holds
abbrev pub ok_and : Option Comparison → (Comparison → Bool) → Bool
ok_and none test = false
ok_and (some c) test = test c

-- The comparison of two converted values, both of which must be numbers
abbrev pub compare_floats : Option ℕ → Option ℕ → Option Comparison
compare_floats (some af) (some bf) =
    if f64_lt af bf
    then some Comparison.less
    else if f64_lt bf af
    then some Comparison.greater
    else some Comparison.same
compare_floats _ _ = none

-- The branches of `valuesEqual`; the last argument is its answer where the first is no number.
abbrev pub equal_floats : Option ℕ → Option ℕ → Bool → Bool
equal_floats (some af) (some bf) strings = f64_eq af bf
equal_floats (some af) none strings = false
equal_floats none b strings = strings

module _ (m : Arithmetic) where
  unfoldable pub to_float64 : Scalar → Option ℕ
  to_float64 (int x) = some (m.of_int x)
  to_float64 (int32 x) = some (m.of_int x)
  to_float64 (int64 x) = some (m.of_int x)
  to_float64 (float32 x) = some (m.widen x)
  to_float64 (float64 x) = some x
  to_float64 (text x) = none
  to_float64 other = none

  -- The two string assertions of `valuesEqual`
  unfoldable pub texts_equal : Scalar → Scalar → Bool
  texts_equal (text s) (text t) = beq s t
  texts_equal _ _ = false

  unfoldable pub values_equal : Scalar → Scalar → Bool
  unfolding to_float64 texts_equal
  values_equal a b = equal_floats (to_float64 a) (to_float64 b) (texts_equal a b)

  unfoldable pub compare_numeric : Scalar → Scalar → Option Comparison
  unfolding to_float64
  compare_numeric a b = compare_floats (to_float64 a) (to_float64 b)

  unfoldable pub among : Scalar → List Scalar → Bool
  unfolding values_equal
  among value [] = false
  among value (x ∷ xs) = values_equal value x || among value xs

  unfoldable pub in_set : Scalar → Operand → Bool
  unfolding among
  in_set value (one x) = false
  in_set value (many xs) = among value xs

  unfoldable pub between_range : Scalar → Operand → Bool
  unfolding compare_numeric
  between_range value (many (lo ∷ hi ∷ [])) = ok_and (compare_numeric value lo) (λ c_lo.
      ok_and (compare_numeric value hi) (λ c_hi. not (is_less c_lo) && not (is_greater c_hi)))
  between_range value _ = false

  -- `valuesEqual` and `compareNumeric` of a slice: it is neither a number nor a string.
  abbrev pub as_scalar : Operand → Scalar
  as_scalar (one x) = x
  as_scalar (many xs) = other

  unfoldable pub matches_condition : Scalar → ScalarCondition → Bool
  unfolding values_equal compare_numeric in_set between_range
  matches_condition value cond = elim cond.operator [
    | OpType.eq ↦ values_equal value (as_scalar cond.value)
    | OpType.ne ↦ not (values_equal value (as_scalar cond.value))
    | OpType.lt ↦ ok_and (compare_numeric value (as_scalar cond.value)) is_less
    | OpType.gt ↦ ok_and (compare_numeric value (as_scalar cond.value)) is_greater
    | OpType.le ↦ ok_and (compare_numeric value (as_scalar cond.value)) (λ c. not (is_greater c))
    | OpType.ge ↦ ok_and (compare_numeric value (as_scalar cond.value)) (λ c. not (is_less c))
    | OpType.in_list ↦ in_set value cond.value
    | OpType.between ↦ between_range value cond.value
    | OpType.unknown n ↦ false
  ]

-- The first `numRows` cells tested; `make` left false in the rows that have no cell.
unfoldable pub test_cells {ℓ} : {A : Type ℓ} → (A → Bool) → List A → ℕ → List Bool
test_cells test cells zero = []
test_cells test [] (suc n) = false ∷ test_cells test [] n
test_cells test (x ∷ xs) (suc n) = test x ∷ test_cells test xs n

unfoldable pub evaluate_column : Arithmetic → Column → ScalarCondition → ℕ → Result (List Bool)
unfolding test_cells matches_condition
evaluate_column m (Column.int64s d) cond n =
    ok (test_cells (λ x. matches_condition m (int64 x) cond) d n)
evaluate_column m (Column.int32s d) cond n =
    ok (test_cells (λ x. matches_condition m (int32 x) cond) d n)
evaluate_column m (Column.float32s d) cond n =
    ok (test_cells (λ x. matches_condition m (float32 x) cond) d n)
evaluate_column m (Column.float64s d) cond n =
    ok (test_cells (λ x. matches_condition m (float64 x) cond) d n)
evaluate_column m (Column.strings d) cond n =
    ok (test_cells (λ x. matches_condition m (text x) cond) d n)
evaluate_column m _ cond n = err unsupported_type

-- `matched[i] = matched[i] && rowMatched[i]`
abbrev pub and_rows : List Bool → List Bool → List Bool
and_rows [] _ = []
and_rows (b ∷ bs) [] = []
and_rows (b ∷ bs) (r ∷ rs) = (b && r) ∷ and_rows bs rs

-- `make([]bool, numRows)` panics at a negative count.
abbrev pub all_true : ℤ → Result (List Bool)
all_true (pos n) = ok (replicate n true)
all_true (negsuc n) = panic

-- The row ids of the rows still matched
unfoldable pub matching_ids : ℤ → List Bool → List ℤ
matching_ids row_id [] = []
matching_ids row_id (b ∷ bs) =
    let later = matching_ids (row_id +ℤ pos 1) bs in if b then row_id ∷ later else later

pub record ScanFilter : Type 0 where
  pub reader : FragmentReader
  pub schema : Schema

module _ (m : Arithmetic) (c : Codec) (sf : ScanFilter) where
  -- The loop over the conditions
  unfoldable pub test_conditions : Fragment → List ScalarCondition → List Bool → Result (List Bool)
  unfolding evaluate_column read_column field_by_name
  test_conditions frag [] matched = ok matched
  test_conditions frag (cond ∷ conds) matched = do
    field ← found (field_by_name sf.schema cond.column) (err column_not_found)
    column ← read_column c sf.reader frag (id_of field)
    row_matched ← evaluate_column m column cond (length matched)
    test_conditions frag conds (and_rows matched row_matched)

  -- The loop over the fragments: `asked` counts the questions to the context.
  unfoldable pub filter_fragments :
      (ℕ → Bool) → List ScalarCondition → ℕ → ℤ → List Fragment → Result (List ℤ)
  unfolding test_conditions matching_ids
  filter_fragments ctx conds asked row_offset [] = ok []
  filter_fragments ctx conds asked row_offset (frag ∷ frags) =
      let later = filter_fragments ctx conds (suc asked) (row_offset +ℤ row_count frag) frags in
      if ctx asked then err canceled else do
        rows ← all_true (row_count frag)
        matched ← test_conditions frag conds rows
        more ← later
        ok (matching_ids row_offset matched ++ more)

  -- `ScanFilter.Filter`, at a filter that is not nil
  unfoldable pub filter : (ℕ → Bool) → ℕ → Manifest → ScalarFilter → Result (List ℤ)
  unfolding filter_fragments
  filter ctx asked manifest f = elim f.conditions [
    | [] ↦ ok []
    | cond ∷ conds ↦ filter_fragments ctx (cond ∷ conds) asked (pos 0) manifest.fragments
  ]
