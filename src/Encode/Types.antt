-- ===== src/Encode/Types.antt =====
-- encode/types.go, and the values that a column's `interface{}` can hold.
use golance_db.Prelude.{ℕ, List, Result, ok, err, type_mismatch}
use golance_db.Prelude.Int.{ℤ, pos}
use golance_db.Bytes.{Bytes}

-- `DataType` is an int32: `unknown` is any value that has no name in the source.
pub data DataType : Type 0 where
  int8 int16 int32 int64 float16 float32 float64 string binary : DataType
  struct list dict fixed_size_list : DataType
  unknown : ℤ → DataType

pub data CompressionType : Type 0 where
  none zstd lz4 : CompressionType
  unknown : ℤ → CompressionType

-- `EncodingMiniBlock` as it stands in a page
abbrev pub encoding_mini_block : ℤ
encoding_mini_block = pos 1

-- A float is its bit pattern (`math.Float32bits`), a string its bytes. `other` is a value of any
-- other dynamic type, nil included.
pub data Column : Type 0 where
  int8s int16s int32s int64s : List ℤ → Column
  float32s float64s : List ℕ → Column
  strings binaries : List Bytes → Column
  other : Column

-- The type assertions `data.([]T)`.
abbrev pub as_int32s : Column → Result (List ℤ)
as_int32s (int32s d) = ok d
as_int32s _ = err type_mismatch

abbrev pub as_int64s : Column → Result (List ℤ)
as_int64s (int64s d) = ok d
as_int64s _ = err type_mismatch

abbrev pub as_float32s : Column → Result (List ℕ)
as_float32s (float32s d) = ok d
as_float32s _ = err type_mismatch

abbrev pub as_float64s : Column → Result (List ℕ)
as_float64s (float64s d) = ok d
as_float64s _ = err type_mismatch

abbrev pub as_strings : Column → Result (List Bytes)
as_strings (strings d) = ok d
as_strings _ = err type_mismatch

abbrev pub as_binaries : Column → Result (List Bytes)
as_binaries (binaries d) = ok d
as_binaries _ = err type_mismatch
