-- ===== src/Encode/Serialize/RoundTrip.antt =====
-- `serialize` and `deserialize` of encode/miniblock.go undo one another on every type that the
-- encoder supports.
use golance_db.Prelude.{ℕ, ◌*◌, ◌/◌, ◌^◌, ◌<◌, ◌≡◌, refl, List, All, ok, arith}
use golance_db.Prelude.Int.{
  ℤ, IsInt32, IsInt64, to_u32, to_u64, to_i32, to_i64, to_i32-to_u32, to_i64-to_u64, to_u32_bound,
  to_u64_bound,
}
use golance_db.Bytes.{Bytes, put_le, get_le, get_le-put_le}
use golance_db.Encode.Types.{
  DataType, Column, int32s, int64s, float32s, float64s, strings, binaries,
}
use golance_db.Encode.Serialize.{
  serialize, deserialize, serialize_int64, serialize_int32, serialize_float32, serialize_float64,
  deserialize_int64, deserialize_int32, deserialize_float32, deserialize_float64,
  deserialize_strings, deserialize_bytes, serialize_strings, serialize_bytes,
}
use golance_db.Encode.Serialize.Words.{length-put_words, get_words-put_words}
use golance_db.Encode.Serialize.Texts.{
  AreShort, serialize_bytes-eq, text_loop-serialize_strings, length-serialize_strings,
}

-- The column has the Go type that the data type wants, and each value lies in its range.
abbrev pub Fits : DataType → Column → Type 0
Fits DataType.int64 (int64s d) = All IsInt64 d
Fits DataType.int32 (int32s d) = All IsInt32 d
Fits DataType.float32 (float32s d) = All (λ bits. bits < 2 ^ 32) d
Fits DataType.fixed_size_list (float32s d) = All (λ bits. bits < 2 ^ 32) d
Fits DataType.float64 (float64s d) = All (λ bits. bits < 2 ^ 64) d
Fits DataType.string (strings d) = AreShort d
Fits DataType.binary (binaries d) = AreShort d
Fits _ _ = ⊥

words8 : {n m : ℕ} → n ≡ m * 8 → n / 8 ≡ m
words8 h = omega arith

words4 : {n m : ℕ} → n ≡ m * 4 → n / 4 ≡ m
words4 h = omega arith

int64_back : (v : ℤ) → IsInt64 v → to_i64 (get_le (put_le 8 (to_u64 v))) ≡ v
int64_back v h = rw (get_le-put_le 8 (to_u64 v) (to_u64_bound v)) (to_i64-to_u64 v h)

int32_back : (v : ℤ) → IsInt32 v → to_i32 (get_le (put_le 4 (to_u32 v))) ≡ v
int32_back v h = rw (get_le-put_le 4 (to_u32 v) (to_u32_bound v)) (to_i32-to_u32 v h)

int64_round_trip : (d : List ℤ) → All IsInt64 d → deserialize_int64 (serialize_int64 d) ≡ d
unfolding deserialize_int64 serialize_int64
int64_round_trip d p =
    rw (words8 (length-put_words 8 to_u64 d))
      (get_words-put_words 8 to_u64 to_i64 IsInt64 int64_back d p)

int32_round_trip : (d : List ℤ) → All IsInt32 d → deserialize_int32 (serialize_int32 d) ≡ d
unfolding deserialize_int32 serialize_int32
int32_round_trip d p =
    rw (words4 (length-put_words 4 to_u32 d))
      (get_words-put_words 4 to_u32 to_i32 IsInt32 int32_back d p)

float32_round_trip :
    (d : List ℕ) → All (λ bits. bits < 2 ^ 32) d → deserialize_float32 (serialize_float32 d) ≡ d
unfolding deserialize_float32 serialize_float32
float32_round_trip d p = rw (words4 (length-put_words 4 (λ (bits : ℕ). bits) d)) (
    get_words-put_words 4 (λ bits. bits) (λ bits. bits) (λ bits. bits < 2 ^ 32)
      (λ v h. get_le-put_le 4 v h) d p)

float64_round_trip :
    (d : List ℕ) → All (λ bits. bits < 2 ^ 64) d → deserialize_float64 (serialize_float64 d) ≡ d
unfolding deserialize_float64 serialize_float64
float64_round_trip d p = rw (words8 (length-put_words 8 (λ (bits : ℕ). bits) d)) (
    get_words-put_words 8 (λ bits. bits) (λ bits. bits) (λ bits. bits < 2 ^ 64)
      (λ v h. get_le-put_le 8 v h) d p)

strings_round_trip :
    (d : List Bytes) → AreShort d → deserialize_strings (serialize_strings d) ≡ ok d
unfolding deserialize_strings
strings_round_trip d p = text_loop-serialize_strings _ d p (length-serialize_strings d)

bytes_round_trip : (d : List Bytes) → AreShort d → deserialize_bytes (serialize_bytes d) ≡ ok d
unfolding deserialize_bytes
bytes_round_trip d p =
    rw (serialize_bytes-eq d) (text_loop-serialize_strings _ d p (length-serialize_strings d))

-- A column that fits its data type is serialised, and the bytes deserialise to it.
pub deserialize-serialize :
    (t : DataType) (c : Column)
    → Fits t c
    → (bytes : Bytes) × (serialize c t ≡ ok bytes) × (deserialize bytes t ≡ ok c)
unfolding serialize deserialize
deserialize-serialize DataType.int64 (int64s d) p =
    (serialize_int64 d, refl, rw (int64_round_trip d p))
deserialize-serialize DataType.int32 (int32s d) p =
    (serialize_int32 d, refl, rw (int32_round_trip d p))
deserialize-serialize DataType.float32 (float32s d) p =
    (serialize_float32 d, refl, rw (float32_round_trip d p))
deserialize-serialize DataType.fixed_size_list (float32s d) p =
    (serialize_float32 d, refl, rw (float32_round_trip d p))
deserialize-serialize DataType.float64 (float64s d) p =
    (serialize_float64 d, refl, rw (float64_round_trip d p))
deserialize-serialize DataType.string (strings d) p =
    (serialize_strings d, refl, rw (strings_round_trip d p))
deserialize-serialize DataType.binary (binaries d) p =
    (serialize_bytes d, refl, rw (bytes_round_trip d p))
deserialize-serialize _ _ p = absurd p
