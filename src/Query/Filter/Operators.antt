-- ===== src/Query/Filter/Operators.antt =====
-- query/scan_filter.go: how the operators relate.
use golance_db.Prelude.{
  ℕ, ◌≡◌, refl, [], ◌∷◌, true, false, not, ◌&&◌, ◌||◌, Option, none, some, arith, inl, inr,
  Bool-cases, if◌then◌else◌,
}
use golance_db.Bytes.{Bytes}
use golance_db.Float.{Arithmetic, f64_lt, f64_eq, is_nan}
use golance_db.Query.Filter.{
  OpType, Scalar, Operand, ScalarCondition, one, many, to_float64, values_equal, compare_numeric,
  between_range, matches_condition, ok_and, is_less, is_greater, Comparison,
}

abbrev pub condition : Bytes → OpType → Operand → ScalarCondition
condition column op value = record { column = column; operator = op; value = value }

module _ (m : Arithmetic) (column : Bytes) where
  compared : ℕ → ℕ → Comparison
  compared a b =
      if f64_lt a b
      then Comparison.less
      else if f64_lt b a
      then Comparison.greater
      else Comparison.same

  compare_numeric-floats :
      (x y : Scalar) (a b : ℕ)
      → to_float64 m x ≡ some a
      → to_float64 m y ≡ some b
      → compare_numeric m x y ≡ some (compared a b)
  unfolding compare_numeric compared
  compare_numeric-floats x y a b ha hb =
      rw (ha, hb)
        (elim (Bool-cases (f64_lt a b)) [
          | inl e ↦ rw e refl
          | inr e ↦ elim (Bool-cases (f64_lt b a)) [
            | inl d ↦ rw (e, d) refl
            | inr d ↦ rw (e, d) refl
          ]
        ])

  values_equal-floats :
      (x y : Scalar) (a b : ℕ)
      → to_float64 m x ≡ some a
      → to_float64 m y ≡ some b
      → values_equal m x y ≡ f64_eq a b
  unfolding values_equal
  values_equal-floats x y a b ha hb = rw (ha, hb) refl

  compared_nan : (a b : ℕ) → is_nan a ≡ true → compared a b ≡ Comparison.same
  unfolding compared f64_lt
  compared_nan a b h = ground arith

  f64_eq_nan : (a b : ℕ) → is_nan a ≡ true → f64_eq a b ≡ false
  unfolding f64_eq
  f64_eq_nan a b h = ground arith

  compared_eq :
      (a b : ℕ)
      → is_nan a ≡ false
      → is_nan b ≡ false
      → (not (is_greater (compared a b)) ≡ (is_less (compared a b) || f64_eq a b))
        × (not (is_less (compared a b)) ≡ (is_greater (compared a b) || f64_eq a b))
        × (not (f64_eq a b) ≡ (is_less (compared a b) || is_greater (compared a b)))
  unfolding compared f64_lt f64_eq
  compared_eq a b na nb = (ground arith, ground arith, ground arith)

  -- Any value, a number or not, is matched by the range of two bounds where it is matched by `>=`
  -- of the first and by `<=` of the second, and only there.
  pub between-ge_le :
      (x lo hi : Scalar)
      → matches_condition m x (condition column OpType.between (many (lo ∷ hi ∷ []))) ≡ (
          matches_condition m x (condition column OpType.ge (one lo))
          && matches_condition m x (condition column OpType.le (one hi)))
  unfolding matches_condition between_range
  between-ge_le x lo hi = both (compare_numeric m x lo) (compare_numeric m x hi)
    where
      both :
          (c d : Option Comparison)
          → ok_and c (λ c_lo. ok_and d (λ c_hi. not (is_less c_lo) && not (is_greater c_hi)))
            ≡ (ok_and c (λ c. not (is_less c)) && ok_and d (λ c. not (is_greater c)))
      both none d = refl
      both (some c) (some d) = refl
      both (some c) none = ground arith

  -- For two numbers that are not NaN, `<=` is `<` or `==`, `>=` is `>` or `==`, and `!=` is `<` or `>`.
  pub le-lt_eq :
      (x y : Scalar) (a b : ℕ)
      → to_float64 m x ≡ some a
      → to_float64 m y ≡ some b
      → is_nan a ≡ false
      → is_nan b ≡ false
      → (matches_condition m x (condition column OpType.le (one y)) ≡ (
          matches_condition m x (condition column OpType.lt (one y))
          || matches_condition m x (condition column OpType.eq (one y))))
        × (matches_condition m x (condition column OpType.ge (one y)) ≡ (
            matches_condition m x (condition column OpType.gt (one y))
            || matches_condition m x (condition column OpType.eq (one y))))
        × (matches_condition m x (condition column OpType.ne (one y)) ≡ (
            matches_condition m x (condition column OpType.lt (one y))
            || matches_condition m x (condition column OpType.gt (one y))))
  unfolding matches_condition compare_numeric values_equal
  le-lt_eq x y a b ha hb na nb =
      rw (compare_numeric-floats x y a b ha hb, values_equal-floats x y a b ha hb)
        (compared_eq a b na nb)

  -- A NaN is not matched by `==` or by `<` of a number, but it is matched by `<=` and by `>=` of
  -- one, and by every range of two numbers.
  pub nan_matches :
      (x lo hi : Scalar) (a b c : ℕ)
      → to_float64 m x ≡ some a
      → to_float64 m lo ≡ some b
      → to_float64 m hi ≡ some c
      → is_nan a ≡ true
      → (matches_condition m x (condition column OpType.eq (one lo)) ≡ false)
        × (matches_condition m x (condition column OpType.lt (one lo)) ≡ false)
        × (matches_condition m x (condition column OpType.le (one lo)) ≡ true)
        × (matches_condition m x (condition column OpType.ge (one lo)) ≡ true)
        × (matches_condition m x (condition column OpType.between (many (lo ∷ hi ∷ []))) ≡ true)
  unfolding matches_condition compare_numeric values_equal between_range
  nan_matches x lo hi a b c ha hb hc na =
      rw
        (
          compare_numeric-floats x lo a b ha hb,
          compare_numeric-floats x hi a c ha hc,
          values_equal-floats x lo a b ha hb,
          compared_nan a b na,
          compared_nan a c na,
          f64_eq_nan a b na,
        )
        (refl, refl, refl, refl, refl)
