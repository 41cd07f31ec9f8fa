-- ===== src/Encode/Constant/RoundTrip.antt =====
-- What encode/constant.go gives back of a column.
use golance_db.Prelude.{
  ℕ, suc, ◌^◌, ◌<◌, ◌≡◌, refl, ap, [], ◌++◌, length, replicate, ok, arith, append_nil,
  length-replicate, sym, ◌∙◌,
}
use golance_db.Prelude.Int.{
  ℤ, pos, IsInt32, IsInt64, to_u32, to_i32, to_u64, to_i32-to_u32, to_i64-to_u64, to_u32_bound,
  to_u64_bound,
}
use golance_db.Bytes.{
  Bytes, put_le, read_sized, write_i32, read_i32-write_i32, read_sized-append, read_len-append,
  to_i32_of_lt, get_le-put_le,
}
use golance_db.Encode.Types.{DataType, Column, int32s, int64s, float32s, float64s, strings}
use golance_db.Encode.Constant.{
  extract_value, constant_encode, replicate_value, constant_page, constant_decode,
}

-- A value that the encoder can store, its data type, and the column of n rows that hold it.
pub data Value : Type 0 where
  int64 int32 : ℤ → Value
  float32 float64 : ℕ → Value
  string : Bytes → Value

abbrev pub type_of : Value → DataType
type_of (Value.int64 v) = DataType.int64
type_of (Value.int32 v) = DataType.int32
type_of (Value.float32 v) = DataType.float32
type_of (Value.float64 v) = DataType.float64
type_of (Value.string s) = DataType.string

abbrev pub rows : Value → ℕ → Column
rows (Value.int64 v) n = int64s (replicate n v)
rows (Value.int32 v) n = int32s (replicate n v)
rows (Value.float32 v) n = float32s (replicate n v)
rows (Value.float64 v) n = float64s (replicate n v)
rows (Value.string s) n = strings (replicate n s)

abbrev pub IsStorable : Value → Type 0
IsStorable (Value.int64 v) = IsInt64 v
IsStorable (Value.int32 v) = IsInt32 v
IsStorable (Value.float32 v) = v < 2 ^ 32
IsStorable (Value.float64 v) = v < 2 ^ 64
IsStorable (Value.string s) = length s < 2 ^ 31

abbrev value_bytes : Value → Bytes
value_bytes (Value.int64 v) = put_le 8 (to_u64 v)
value_bytes (Value.int32 v) = put_le 4 (to_u32 v)
value_bytes (Value.float32 v) = put_le 4 v
value_bytes (Value.float64 v) = put_le 8 v
value_bytes (Value.string s) = s

extract_value-rows :
    (v : Value) (n : ℕ) → extract_value (rows v (suc n)) (type_of v) ≡ ok (value_bytes v, suc n)
unfolding extract_value
extract_value-rows (Value.int64 v) n = rw (length-replicate n v)
extract_value-rows (Value.int32 v) n = rw (length-replicate n v)
extract_value-rows (Value.float32 v) n = rw (length-replicate n v)
extract_value-rows (Value.float64 v) n = rw (length-replicate n v)
extract_value-rows (Value.string s) n = rw (length-replicate n s)

replicate_value-value_bytes :
    (v : Value) (n : ℕ)
    → IsStorable v
    → replicate_value (value_bytes v) (type_of v) (pos n) ≡ ok (rows v n)
unfolding replicate_value
replicate_value-value_bytes (Value.int64 v) n h =
    rw (get_le-put_le 8 (to_u64 v) (to_u64_bound v), to_i64-to_u64 v h)
replicate_value-value_bytes (Value.int32 v) n h =
    rw (get_le-put_le 4 (to_u32 v) (to_u32_bound v), to_i32-to_u32 v h)
replicate_value-value_bytes (Value.float32 v) n h = rw (get_le-put_le 4 v h)
replicate_value-value_bytes (Value.float64 v) n h = rw (get_le-put_le 8 v h)
replicate_value-value_bytes (Value.string s) n h = refl

length-value_bytes : (v : Value) → IsStorable v → length (value_bytes v) < 2 ^ 31
length-value_bytes (Value.string s) h = h
length-value_bytes _ h = omega arith

read_sized-all :
    (xs : Bytes) → length xs < 2 ^ 31 → read_sized (to_i32 (length xs)) xs ≡ ok (xs, [])
read_sized-all xs h =
    ap (read_sized (to_i32 (length xs))) (sym (append_nil xs)) ∙ read_sized-append xs [] h

constant_page_lem :
    (count : ℤ) (bytes : Bytes) (t : DataType) (n : ℤ)
    → IsInt32 count
    → length bytes < 2 ^ 31
    → constant_page (write_i32 count ++ (write_i32 (to_i32 (length bytes)) ++ bytes)) t n
      ≡ replicate_value bytes t n
unfolding constant_page
constant_page_lem count bytes t n hc hl = rw (
  read_i32-write_i32 count (write_i32 (to_i32 (length bytes)) ++ bytes) hc,
  read_len-append bytes bytes hl,
  read_sized-all bytes hl,
)

-- A column of one value or more and less than 2^31, all the same and one that can be stored, is
-- encoded, and its page decodes to as many rows of the value as are asked for, also where that
-- is not the count that was stored.
pub constant_decode-encode :
    (v : Value) (n m : ℕ)
    → IsStorable v
    → suc n < 2 ^ 31
    → (page : Bytes) × (constant_encode (rows v (suc n)) (type_of v) ≡ ok page)
      × (constant_decode page (type_of v) (pos m) ≡ ok (rows v m))
unfolding constant_encode constant_decode
constant_decode-encode v n m h k = (
  write_i32 (to_i32 (suc n)) ++ (write_i32 (to_i32 (length (value_bytes v))) ++ value_bytes v),
  rw (extract_value-rows v n),
  rw (to_i32_of_lt (suc n) k) (
      constant_page_lem (pos (suc n)) (value_bytes v) (type_of v) (pos m) (k, omega arith)
        (length-value_bytes v h)
      ∙ replicate_value-value_bytes v m h),
)
