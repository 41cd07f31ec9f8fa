-- ===== src/Bytes.antt =====
-- `encoding/binary` in little-endian order, and reads from a `bytes.Reader`. A byte is a number
-- below 256, and a byte slice, like a Go string, is a list of them.
use golance_db.Prelude.{
  ℕ, zero, suc, ◌+◌, ◌*◌, ◌/◌, ◌%◌, ◌^◌, ◌<◌, ◌≡◌, refl, ap, List, [], ◌∷◌, ◌++◌, length, All,
  Result, ok, err, panic, ◌>>=◌, >>=-eq-ok, unexpected_eof, arith,
}
use golance_db.Prelude.Int.{ℤ, pos, negsuc, to_u32, to_i32, IsInt32, to_i32-to_u32, to_u32_bound}
use mathlib.Core.Logic.{◌↔◌}
use mathlib.Core.Bool.{Bool, true, false, ◌&&◌}
use golance_db.Prelude.{◌==◌}
use native.Mathlib.Decide.{ℕ_discrete}
use native.Mathlib.Nat.{pow-suc}

abbrev pub Bytes : Type 0
Bytes = List ℕ

abbrev pub IsBytes : Bytes → Type 0
IsBytes = All (λ b. b < 256)

-- `PutUint16`, `PutUint32`, `PutUint64`: the lowest `w` bytes of a number.
abbrev pub put_le : ℕ → ℕ → Bytes
put_le zero n = []
put_le (suc w) n = (n % 256) ∷ put_le w (n / 256)

-- `Uint16`, `Uint32`, `Uint64`
abbrev pub get_le : Bytes → ℕ
get_le [] = 0
get_le (b ∷ bs) = b + 256 * get_le bs

pub length-put_le : (w n : ℕ) → length (put_le w n) ≡ w
length-put_le zero n = refl
length-put_le (suc w) n = ap suc (length-put_le w (n / 256))

pub put_le-IsBytes : (w n : ℕ) → IsBytes (put_le w n)
put_le-IsBytes zero n = tt
put_le-IsBytes (suc w) n = (omega arith, put_le-IsBytes w (n / 256))

div_lt : (n k : ℕ) → n < k * 256 → n / 256 < k
div_lt n k h = omega arith

-- Reading back what was written, at any width that holds the number.
pub get_le-put_le : (w n : ℕ) → n < 256 ^ w → get_le (put_le w n) ≡ n
get_le-put_le zero n h = omega arith
get_le-put_le (suc w) n h =
    omega (arith, pow-suc 256 w, get_le-put_le w (n / 256) (div_lt n (256 ^ w) (rw pow-suc at h)))

-- `io.ReadFull` into a buffer of n bytes: the bytes, and what the reader has left.
unfoldable pub read_full : ℕ → Bytes → Result (Bytes × Bytes)
read_full zero bs = ok ([], bs)
read_full (suc n) [] = err unexpected_eof
read_full (suc n) (b ∷ bs) = do (got, rest) ← read_full n bs; ok (b ∷ got, rest)

-- `binary.Read` and `binary.Write` of an `int32`
unfoldable pub read_i32 : Bytes → Result (ℤ × Bytes)
read_i32 bs = do (word, rest) ← read_full 4 bs; ok (to_i32 (get_le word), rest)

abbrev pub write_i32 : ℤ → Bytes
write_i32 v = put_le 4 (to_u32 v)

-- `make([]byte, n)` panics at a negative length.
unfoldable pub read_sized : ℤ → Bytes → Result (Bytes × Bytes)
unfolding read_full
read_sized (pos n) bs = read_full n bs
read_sized (negsuc n) bs = panic

pub read_full-append : (xs rest : Bytes) → read_full (length xs) (xs ++ rest) ≡ ok (xs, rest)
unfolding read_full
read_full-append [] rest = refl
read_full-append (x ∷ xs) rest = rw (read_full-append xs rest)

pub read_i32-write_i32 :
    (v : ℤ) (rest : Bytes) → IsInt32 v → read_i32 (write_i32 v ++ rest) ≡ ok (v, rest)
unfolding read_i32 read_full
read_i32-write_i32 v rest h = rw (get_le-put_le 4 (to_u32 v) (to_u32_bound v), to_i32-to_u32 v h)

-- `int32(n)` of a length
pub to_i32_of_lt : (n : ℕ) → n < 2 ^ 31 → to_i32 n ≡ pos n
to_i32_of_lt n h = ground arith

pub read_sized-append :
    (xs rest : Bytes)
    → length xs < 2 ^ 31
    → read_sized (to_i32 (length xs)) (xs ++ rest) ≡ ok (xs, rest)
unfolding read_sized
read_sized-append xs rest h = rw (to_i32_of_lt (length xs) h) (read_full-append xs rest)

pub read_len-append :
    (xs rest : Bytes)
    → length xs < 2 ^ 31
    → read_i32 (write_i32 (to_i32 (length xs)) ++ rest) ≡ ok (to_i32 (length xs), rest)
read_len-append xs rest h =
    read_i32-write_i32 (to_i32 (length xs)) rest (rw (to_i32_of_lt (length xs) h) (omega arith))

-- What a successful read leaves.
pub length-read_full :
    (n : ℕ) (bs got rest : Bytes) → read_full n bs ≡ ok (got, rest) → n + length rest ≡ length bs
unfolding read_full
length-read_full zero bs got rest h = ground arith
length-read_full (suc n) [] got rest h = cc
length-read_full (suc n) (b ∷ bs) got rest h =
    let (x, hx, hy) = >>=-eq-ok (read_full n bs) _ h in
    ground (arith, length-read_full n bs x.0 x.1 hx)

-- `==` on strings and on byte arrays
abbrev pub beq : Bytes → Bytes → Bool
beq [] [] = true
beq (x ∷ xs) (y ∷ ys) = x == y && beq xs ys
beq _ _ = false

pub beq_iff : (xs ys : Bytes) → (beq xs ys ≡ true) ↔ (xs ≡ ys)
beq_iff [] [] = ground arith
beq_iff [] (y ∷ ys) = ground arith
beq_iff (x ∷ xs) [] = ground arith
beq_iff (x ∷ xs) (y ∷ ys) = ground (arith, beq_iff xs ys)

pub Bytes-discrete : Discrete Bytes
Bytes-discrete = hlevel ℕ_discrete
