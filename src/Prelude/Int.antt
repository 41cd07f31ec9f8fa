-- ===== src/Prelude/Int.antt =====
-- Signed integers over the native numbers, under the library's names, with the conversions of
-- Go between `intN` and `uintN`. `negsuc n` is -(n + 1).
use golance_db.Prelude.Tests.{ltb, leb, if◌then◌else◌}
use Prim.Native.Nat.{ℕ, zero, suc, ◌+◌, ◌-◌, ◌*◌, ◌%◌, ◌^◌, ◌≤◌, ◌<◌}
use mathlib.Core.Path.{◌≡◌}
use mathlib.Core.Bool.{Bool, true, false}
use native.Mathlib.Decide.{ℕ_discrete}
use native.Mathlib.Omega.{arith}

pub data ℤ : Type 0 where
  pos : ℕ → ℤ
  negsuc : ℕ → ℤ

unfoldable pub ℤ_discrete : Discrete ℤ
ℤ_discrete = hlevel ℕ_discrete

abbrev pub pos_part : ℤ → ℕ
pos_part (pos n) = n
pos_part (negsuc n) = 0

abbrev pub neg_part : ℤ → ℕ
neg_part (pos n) = 0
neg_part (negsuc n) = suc n

-- a - b, as an integer.
abbrev pub sub_ℕ : ℕ → ℕ → ℤ
sub_ℕ a b = if leb b a then pos (a - b) else negsuc (b - a - 1)

infixl 65 ◌+ℤ◌ ◌-ℤ◌
infix 50 ◌≤ℤ◌
unfoldable pub ◌+ℤ◌ : ℤ → ℤ → ℤ
a +ℤ b = sub_ℕ (pos_part a + pos_part b) (neg_part a + neg_part b)

unfoldable pub ◌-ℤ◌ : ℤ → ℤ → ℤ
a -ℤ b = sub_ℕ (pos_part a + neg_part b) (neg_part a + pos_part b)

abbrev pub ◌≤ℤ◌ : ℤ → ℤ → Type 0
a ≤ℤ b = pos_part a + neg_part b ≤ pos_part b + neg_part a

abbrev pub ltb_ℤ : ℤ → ℤ → Bool
ltb_ℤ a b = ltb (pos_part a + neg_part b) (pos_part b + neg_part a)

abbrev pub eqb_ℤ : ℤ → ℤ → Bool
eqb_ℤ a b = elim (Prim.Native.Nat.compare (pos_part a + neg_part b) (pos_part b + neg_part a)) [
  | Prim.Native.Nat.Ordering.eq ↦ true
  | _ ↦ false
]

pub +ℤ_parts :
    (a b : ℤ)
    → pos_part (a +ℤ b) + neg_part a + neg_part b ≡ neg_part (a +ℤ b) + pos_part a + pos_part b
unfolding ◌+ℤ◌
+ℤ_parts a b = ground arith

pub -ℤ_parts :
    (a b : ℤ)
    → pos_part (a -ℤ b) + neg_part a + pos_part b ≡ neg_part (a -ℤ b) + pos_part a + neg_part b
unfolding ◌-ℤ◌
-ℤ_parts a b = ground arith

pub eq_of_parts : (a b : ℤ) → pos_part a + neg_part b ≡ pos_part b + neg_part a → a ≡ b
eq_of_parts a b h = ground arith

pub eqb_ℤ→eq : (a b : ℤ) → eqb_ℤ a b ≡ true → a ≡ b
eqb_ℤ→eq a b h = ground arith

pub eqb_ℤ_refl : (a : ℤ) → eqb_ℤ a a ≡ true
eqb_ℤ_refl a = ground arith

pub ruleset int_laws = (arith, +ℤ_parts, -ℤ_parts, eq_of_parts)

-- `uint32(v)`, `int32(u)`, and the same at 64 bits.
abbrev pub to_u32 : ℤ → ℕ
to_u32 (pos n) = n % 2 ^ 32
to_u32 (negsuc n) = 2 ^ 32 - 1 - n % 2 ^ 32

abbrev pub to_i32 : ℕ → ℤ
to_i32 u = if ltb (u % 2 ^ 32) (2 ^ 31) then pos (u % 2 ^ 32) else negsuc (2 ^ 32 - 1 - u % 2 ^ 32)

abbrev pub to_u64 : ℤ → ℕ
to_u64 (pos n) = n % 2 ^ 64
to_u64 (negsuc n) = 2 ^ 64 - 1 - n % 2 ^ 64

abbrev pub to_i64 : ℕ → ℤ
to_i64 u = if ltb (u % 2 ^ 64) (2 ^ 63) then pos (u % 2 ^ 64) else negsuc (2 ^ 64 - 1 - u % 2 ^ 64)

-- A sum of two `int32`, and of two `int64`: it wraps.
abbrev pub add_i32 : ℤ → ℤ → ℤ
add_i32 a b = to_i32 (to_u32 (a +ℤ b))

abbrev pub add_i64 : ℤ → ℤ → ℤ
add_i64 a b = to_i64 (to_u64 (a +ℤ b))

-- A difference of two `int64`
abbrev pub sub_i64 : ℤ → ℤ → ℤ
sub_i64 a b = to_i64 (to_u64 (a -ℤ b))

abbrev pub IsInt32 : ℤ → Type 0
IsInt32 a = (pos_part a < 2 ^ 31) × (neg_part a ≤ 2 ^ 31)

abbrev pub IsInt64 : ℤ → Type 0
IsInt64 a = (pos_part a < 2 ^ 63) × (neg_part a ≤ 2 ^ 63)

pub to_i32-to_u32 : (a : ℤ) → IsInt32 a → to_i32 (to_u32 a) ≡ a
to_i32-to_u32 (pos n) h = ground arith
to_i32-to_u32 (negsuc n) h = ground arith

pub to_i64-to_u64 : (a : ℤ) → IsInt64 a → to_i64 (to_u64 a) ≡ a
to_i64-to_u64 (pos n) h = ground arith
to_i64-to_u64 (negsuc n) h = ground arith

pub to_u32_bound : (a : ℤ) → to_u32 a < 2 ^ 32
to_u32_bound (pos n) = omega arith
to_u32_bound (negsuc n) = omega arith

pub to_u64_bound : (a : ℤ) → to_u64 a < 2 ^ 64
to_u64_bound (pos n) = omega arith
to_u64_bound (negsuc n) = omega arith
