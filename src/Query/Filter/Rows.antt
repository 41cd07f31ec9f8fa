-- ===== src/Query/Filter/Rows.antt =====
-- query/scan_filter.go: which rows of a fragment the conditions leave.
use golance_db.Prelude.{
  ℕ, zero, suc, ◌<◌, ◌≡◌, refl, sym, ap, ◌∙◌, ◌↔◌, List, [], ◌∷◌, length, get_elem?, All, Bool,
  true, false, Option, none, some, ok, err, >>=-eq-ok, ok-injective, column_not_found, arith,
}
use golance_db.Float.{Arithmetic}
use golance_db.Encode.Types.{Column, int32s, int64s, float32s, float64s, strings}
use golance_db.Encode.Compression.{Codec}
use golance_db.Table.Types.{Field, id_of, field_by_name, Fragment}
use golance_db.Query.Reader.{read_column, found}
use golance_db.Query.Filter.{
  Scalar, int32, int64, float32, float64, text, ScalarCondition, ScanFilter, matches_condition,
  test_cells, evaluate_column, and_rows, test_conditions,
}
use mathlib.Core.Path.{subst}
use mathlib.Core.Option.{some-injective}

abbrev option_map {ℓ κ} : {A : Type ℓ} {B : Type κ} → (A → B) → Option A → Option B
option_map f none = none
option_map f (some a) = some (f a)

-- The cell of row i, as a value of a condition.
abbrev pub cell_at : Column → ℕ → Option Scalar
cell_at (int64s d) i = option_map int64 (get_elem? d i)
cell_at (int32s d) i = option_map int32 (get_elem? d i)
cell_at (float32s d) i = option_map float32 (get_elem? d i)
cell_at (float64s d) i = option_map float64 (get_elem? d i)
cell_at (strings d) i = option_map text (get_elem? d i)
cell_at _ i = none

-- Row i has a cell that a condition matches.
abbrev pub IsMatched : Arithmetic → Column → ScalarCondition → ℕ → Type 0
IsMatched m column cond i =
    (x : Scalar) × (cell_at column i ≡ some x) × (matches_condition m x cond ≡ true)

length-test_cells {ℓ} :
    {A : Type ℓ} (test : A → Bool) (l : List A) (n : ℕ) → length (test_cells test l n) ≡ n
unfolding test_cells
length-test_cells test l zero = refl
length-test_cells test [] (suc n) = ap suc (length-test_cells test [] n)
length-test_cells test (x ∷ l) (suc n) = ap suc (length-test_cells test l n)

-- One test as it stands in the rows
module _ {ℓ} {A : Type ℓ} (wrap : A → Scalar) (accept : Scalar → Bool) where
  none_left : (n i : ℕ) → get_elem? (test_cells (λ x. accept (wrap x)) [] n) i ≡ some true → ⊥
  unfolding test_cells
  none_left zero i h = cc
  none_left (suc n) zero h = ground arith
  none_left (suc n) (suc i) h = none_left n i h

  test_cells_sound :
      (l : List A) (n i : ℕ)
      → get_elem? (test_cells (λ x. accept (wrap x)) l n) i ≡ some true
      → (x : Scalar) × (option_map wrap (get_elem? l i) ≡ some x) × (accept x ≡ true)
  unfolding test_cells
  test_cells_sound l zero i h = absurd (cc)
  test_cells_sound [] (suc n) i h = absurd (none_left (suc n) i h)
  test_cells_sound (x ∷ l) (suc n) zero h = (wrap x, refl, ground arith)
  test_cells_sound (x ∷ l) (suc n) (suc i) h = test_cells_sound l n i h

  test_cells_complete :
      (l : List A) (n i : ℕ) (x : Scalar)
      → i < n
      → option_map wrap (get_elem? l i) ≡ some x
      → accept x ≡ true
      → get_elem? (test_cells (λ x. accept (wrap x)) l n) i ≡ some true
  unfolding test_cells
  test_cells_complete l zero i x b h a = absurd (omega arith)
  test_cells_complete [] (suc n) i x b h a = cc
  test_cells_complete (y ∷ l) (suc n) zero x b h a =
      ap some (ap accept (some-injective (wrap y) x h) ∙ a)
  test_cells_complete (y ∷ l) (suc n) (suc i) x b h a =
      test_cells_complete l n i x (omega arith) h a

and_rows-get :
    (a b : List Bool) (i : ℕ)
    → (get_elem? (and_rows a b) i ≡ some true)
      ↔ ((get_elem? a i ≡ some true) × (get_elem? b i ≡ some true))
and_rows-get [] b i = (λ h. cc, λ h. cc (h.0))
and_rows-get (x ∷ a) [] i = (λ h. cc, λ h. cc (h.1))
and_rows-get (true ∷ a) (true ∷ b) zero = (λ h. (refl, refl), λ h. refl)
and_rows-get (true ∷ a) (false ∷ b) zero = (λ h. (refl, h), λ h. h.1)
and_rows-get (false ∷ a) (y ∷ b) zero = (λ h. cc, λ h. h.0)
and_rows-get (x ∷ a) (y ∷ b) (suc i) = and_rows-get a b i

length-and_rows : (a b : List Bool) → length b ≡ length a → length (and_rows a b) ≡ length a
length-and_rows [] b h = refl
length-and_rows (x ∷ a) [] h = absurd (omega arith)
length-and_rows (x ∷ a) (y ∷ b) h = ap suc (length-and_rows a b (omega arith))

module _ (m : Arithmetic) (cond : ScalarCondition) where
  -- A column that can be filtered: its cells are of one of the five types.
  evaluated {ℓ} :
      {A : Type ℓ} (wrap : A → Scalar) (l : List A) (n : ℕ) (rows : List Bool) (i : ℕ)
      → ok (test_cells (λ x. matches_condition m (wrap x) cond) l n) ≡ ok rows
      → (length rows ≡ n)
        × ((get_elem? rows i ≡ some true)
            → (x : Scalar) × (option_map wrap (get_elem? l i) ≡ some x)
              × (matches_condition m x cond ≡ true))
        × (i < n
            → (x : Scalar) × (option_map wrap (get_elem? l i) ≡ some x)
              × (matches_condition m x cond ≡ true)
            → get_elem? rows i ≡ some true)
  evaluated wrap l n rows i e =
      subst
        (λ rows.
          (length rows ≡ n)
          × ((get_elem? rows i ≡ some true)
              → (x : Scalar) × (option_map wrap (get_elem? l i) ≡ some x)
                × (matches_condition m x cond ≡ true))
          × (i < n
              → (x : Scalar) × (option_map wrap (get_elem? l i) ≡ some x)
                × (matches_condition m x cond ≡ true)
              → get_elem? rows i ≡ some true))
        (ok-injective e)
        (
          length-test_cells _ l n,
          λ h. test_cells_sound wrap (λ x. matches_condition m x cond) l n i h,
          λ b h. test_cells_complete wrap (λ x. matches_condition m x cond) l n i h.0 b h.1 h.2,
        )

  evaluate_column-IsMatched :
      (column : Column) (n : ℕ) (rows : List Bool) (i : ℕ)
      → evaluate_column m column cond n ≡ ok rows
      → (length rows ≡ n)
        × ((get_elem? rows i ≡ some true) → IsMatched m column cond i)
        × (i < n → IsMatched m column cond i → get_elem? rows i ≡ some true)
  unfolding evaluate_column
  evaluate_column-IsMatched (int64s d) n rows i e = evaluated int64 d n rows i e
  evaluate_column-IsMatched (int32s d) n rows i e = evaluated int32 d n rows i e
  evaluate_column-IsMatched (float32s d) n rows i e = evaluated float32 d n rows i e
  evaluate_column-IsMatched (float64s d) n rows i e = evaluated float64 d n rows i e
  evaluate_column-IsMatched (strings d) n rows i e = evaluated text d n rows i e
  evaluate_column-IsMatched _ n rows i e = absurd (cc)

module _ (m : Arithmetic) (c : Codec) (sf : ScanFilter) (frag : Fragment) where
  -- Row i of the fragment meets a condition: the schema has the condition's column, the
  -- fragment's data for it is read, and the condition matches the row's cell.
  pub record IsMet (i : ℕ) (cond : ScalarCondition) : Type 0 where
    pub named : Field
    pub in_schema : field_by_name sf.schema cond.column ≡ some named
    pub column : Column
    pub is_read : read_column c sf.reader frag (id_of named) ≡ ok column
    pub cell : IsMatched m column cond i

  found-some :
      (o : Option Field) (named : Field)
      → found o (err column_not_found) ≡ ok named
      → o ≡ some named
  found-some none named h = cc
  found-some (some a) named h = ap some (ok-injective h)

  -- There is one field and one column for a condition.
  cell_of :
      (cond : ScalarCondition) (named : Field) (column : Column) (i : ℕ)
      → field_by_name sf.schema cond.column ≡ some named
      → read_column c sf.reader frag (id_of named) ≡ ok column
      → IsMet i cond
      → IsMatched m column cond i
  cell_of cond named column i nh ch met =
      let same_field = some-injective met.named named (sym met.in_schema ∙ nh) in
      let same_column =
        ok-injective
          (sym met.is_read ∙ ap (λ f. read_column c sf.reader frag (id_of f)) same_field ∙ ch) in
      subst (λ col. IsMatched m col cond i) same_column met.cell

  -- Where the conditions are evaluated on a fragment without an error, a row is left matched if
  -- it was matched before and meets each condition, and only then.
  pub test_conditions-IsMet :
      (conds : List ScalarCondition) (matched rows : List Bool) (i : ℕ)
      → i < length matched
      → test_conditions m c sf frag conds matched ≡ ok rows
      → (get_elem? rows i ≡ some true) ↔ ((get_elem? matched i ≡ some true) × All (IsMet i) conds)
  unfolding test_conditions
  test_conditions-IsMet [] matched rows i b e =
      subst (λ rows. (get_elem? rows i ≡ some true) ↔ ((get_elem? matched i ≡ some true) × Unit))
        (ok-injective e) (λ h. (h, tt), λ h. h.0)
  test_conditions-IsMet (cond ∷ conds) matched rows i b e =
      let (named, nh, e₁) =
        >>=-eq-ok (found (field_by_name sf.schema cond.column) (err column_not_found)) _ e in
      let (column, ch, e₂) = >>=-eq-ok (read_column c sf.reader frag (id_of named)) _ e₁ in
      let (now, rh, e₃) = >>=-eq-ok (evaluate_column m column cond (length matched)) _ e₂ in
      let (l, sound, complete) =
        evaluate_column-IsMatched m cond column (length matched) now i rh in
      let both = and_rows-get matched now i in
      let rest =
        test_conditions-IsMet conds (and_rows matched now) rows i
          (omega (arith, length-and_rows matched now l)) e₃ in
      let is_named = found-some (field_by_name sf.schema cond.column) named nh in
      (
        λ h.
            let (left, later) = rest.0 h in
            let (before, here) = both.0 left in
            (
              before,
              (
                record {
                  named = named;
                  in_schema = is_named;
                  column = column;
                  is_read = ch;
                  cell = sound here;
                },
                later,
              ),
            ),
        λ h.
            rest.1
              (both.1 (h.0, complete b (cell_of cond named column i is_named ch h.1.0)), h.1.1),
      )

  pub length-test_conditions :
      (conds : List ScalarCondition) (matched rows : List Bool)
      → test_conditions m c sf frag conds matched ≡ ok rows
      → length rows ≡ length matched
  unfolding test_conditions
  length-test_conditions [] matched rows e = ap length (sym (ok-injective e))
  length-test_conditions (cond ∷ conds) matched rows e =
      let (named, nh, e₁) =
        >>=-eq-ok (found (field_by_name sf.schema cond.column) (err column_not_found)) _ e in
      let (column, ch, e₂) = >>=-eq-ok (read_column c sf.reader frag (id_of named)) _ e₁ in
      let (now, rh, e₃) = >>=-eq-ok (evaluate_column m column cond (length matched)) _ e₂ in
      let (l, _, _) = evaluate_column-IsMatched m cond column (length matched) now 0 rh in
      length-test_conditions conds (and_rows matched now) rows e₃ ∙ length-and_rows matched now l
