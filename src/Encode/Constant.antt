-- ===== src/Encode/Constant.antt =====
-- encode/constant.go: a column whose values are all the same is stored as one value and a count.
pub mod RoundTrip
use golance_db.Prelude.{
  ℕ, ◌^◌, List, [], ◌∷◌, ◌++◌, length, take, replicate, ltb, if◌then◌else◌, Result, ok, err, panic,
  ◌>>=◌, unsupported_type, empty_slice, short_value,
}
use golance_db.Prelude.Int.{ℤ, pos, negsuc, to_u32, to_i32, to_u64, to_i64}
use golance_db.Bytes.{Bytes, put_le, get_le, read_i32, read_full, read_sized, write_i32}
use golance_db.Encode.Types.{
  DataType, Column, int32s, int64s, float32s, float64s, strings, as_int32s, as_int64s, as_float32s,
  as_float64s, as_strings,
}

-- `len(d) == 0`, else the first value as bytes and the length
abbrev pub first_value {ℓ} : {A : Type ℓ} → (A → Bytes) → List A → Result (Bytes × ℕ)
first_value f [] = err empty_slice
first_value f (v ∷ vs) = ok (f v, length (v ∷ vs))

unfoldable pub extract_value : Column → DataType → Result (Bytes × ℕ)
extract_value c DataType.int64 = do d ← as_int64s c; first_value (λ v. put_le 8 (to_u64 v)) d
extract_value c DataType.int32 = do d ← as_int32s c; first_value (λ v. put_le 4 (to_u32 v)) d
extract_value c DataType.float32 = do d ← as_float32s c; first_value (put_le 4) d
extract_value c DataType.float64 = do d ← as_float64s c; first_value (put_le 8) d
extract_value c DataType.string = do d ← as_strings c; first_value (λ s. s) d
extract_value c _ = err unsupported_type

-- `(*ConstantEncoder).Encode`
unfoldable pub constant_encode : Column → DataType → Result Bytes
constant_encode c t = do
  (value_bytes, count) ← extract_value c t
  ok (write_i32 (to_i32 count) ++ (write_i32 (to_i32 (length value_bytes)) ++ value_bytes))

-- `make([]T, numRows)`, every element set to v
abbrev pub make_filled {ℓ} : {A : Type ℓ} → ℤ → A → Result (List A)
make_filled (pos n) v = ok (replicate n v)
make_filled (negsuc n) v = panic

-- A value of `width` bytes, or the error that the bytes are too short.
abbrev pub fixed_value : ℕ → Bytes → Result ℕ
fixed_value width bytes =
    if ltb (length bytes) width then err short_value else ok (get_le (take width bytes))

unfoldable pub replicate_value : Bytes → DataType → ℤ → Result Column
replicate_value bytes DataType.int64 n = do
  v ← fixed_value 8 bytes
  d ← make_filled n (to_i64 v)
  ok (int64s d)
replicate_value bytes DataType.int32 n = do
  v ← fixed_value 4 bytes
  d ← make_filled n (to_i32 v)
  ok (int32s d)
replicate_value bytes DataType.float32 n = do
  v ← fixed_value 4 bytes
  d ← make_filled n v
  ok (float32s d)
replicate_value bytes DataType.float64 n = do
  v ← fixed_value 8 bytes
  d ← make_filled n v
  ok (float64s d)
replicate_value bytes DataType.string n = do d ← make_filled n bytes; ok (strings d)
replicate_value bytes _ n = err unsupported_type

unfoldable pub constant_empty_result : DataType → Result Column
constant_empty_result DataType.int64 = ok (int64s [])
constant_empty_result DataType.int32 = ok (int32s [])
constant_empty_result DataType.float32 = ok (float32s [])
constant_empty_result DataType.float64 = ok (float64s [])
constant_empty_result DataType.string = ok (strings [])
constant_empty_result _ = err unsupported_type

constant_page : Bytes → DataType → ℤ → Result Column
constant_page encoded t num_rows = do
  (_, r) ← read_i32 encoded
  (value_len, r') ← read_i32 r
  (value_bytes, _) ← read_sized value_len r'
  replicate_value value_bytes t num_rows

-- `(*ConstantEncoder).Decode`; the stored count is read and not used.
unfoldable pub constant_decode : Bytes → DataType → ℤ → Result Column
unfolding constant_page
constant_decode [] t num_rows = constant_empty_result t
constant_decode (b ∷ bs) t num_rows = constant_page (b ∷ bs) t num_rows
