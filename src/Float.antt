-- ===== src/Float.antt =====
-- Go's float32 and float64 as bit patterns. Comparison is that of IEEE 754, from the bits;
-- arithmetic and conversion are the machine's, a parameter.
use golance_db.Prelude.{
  ℕ, ◌-◌, ◌*◌, ◌/◌, ◌%◌, ◌^◌, ◌≡◌, Bool, true, false, not, ◌&&◌, ltb, ◌==◌, if◌then◌else◌, arith,
}
use golance_db.Prelude.Int.{ℤ, pos, negsuc, ltb_ℤ, eqb_ℤ}

-- `float64(x)` of a float32 and of an integer, `+ - * /`, unary minus and `math.Sqrt`
pub record Arithmetic : Type 0 where
  pub widen : ℕ → ℕ
  pub of_int : ℤ → ℕ
  pub add : ℕ → ℕ → ℕ
  pub sub : ℕ → ℕ → ℕ
  pub mul : ℕ → ℕ → ℕ
  pub div : ℕ → ℕ → ℕ
  pub neg : ℕ → ℕ
  pub sqrt : ℕ → ℕ

abbrev pub one_bits : ℕ
one_bits = 1023 * 2 ^ 52

-- `math.MaxFloat64`
abbrev pub max_float64_bits : ℕ
max_float64_bits = 2047 * 2 ^ 52 - 1

abbrev pub is_nan : ℕ → Bool
is_nan x = ltb (2047 * 2 ^ 52) (x % 2 ^ 63)

-- The numbers lie in the order of these integers; both zeros are 0.
unfoldable pub rank : ℕ → ℤ
rank x =
    if x / 2 ^ 63 % 2 == 0
    then pos (x % 2 ^ 63)
    else if x % 2 ^ 63 == 0
    then pos 0
    else negsuc (x % 2 ^ 63 - 1)

-- `a < b` and `a == b`: no comparison with a NaN holds.
unfoldable pub f64_lt : ℕ → ℕ → Bool
f64_lt a b = not (is_nan a) && (not (is_nan b) && ltb_ℤ (rank a) (rank b))

unfoldable pub f64_eq : ℕ → ℕ → Bool
f64_eq a b = not (is_nan a) && (not (is_nan b) && eqb_ℤ (rank a) (rank b))

pub f64_lt_asymm : (a b : ℕ) → f64_lt a b ≡ true → f64_lt b a ≡ false
unfolding f64_lt
f64_lt_asymm a b h = ground arith

pub f64_not_lt_trans :
    (a b c : ℕ) → is_nan b ≡ false → f64_lt b a ≡ false → f64_lt c b ≡ false → f64_lt c a ≡ false
unfolding f64_lt
f64_not_lt_trans a b c n h k = ground arith
