-- ===== src/Encode/Serialize.antt =====
-- The serialisation of whole columns in encode/miniblock.go: `serialize*` and `deserialize*`.
pub mod Words
pub mod Texts
pub mod RoundTrip
use golance_db.Prelude.{
  ℕ, zero, suc, ◌/◌, List, [], ◌∷◌, ◌++◌, length, take, drop, Result, ok, err, panic, ◌>>=◌,
  unsupported_type,
}
use golance_db.Prelude.Int.{ℤ, to_u32, to_i32, to_u64, to_i64}
use golance_db.Bytes.{Bytes, put_le, get_le, read_i32, read_full, read_sized, write_i32}
use golance_db.Encode.Types.{
  DataType, Column, int32s, int64s, float32s, float64s, strings, binaries, as_int32s, as_int64s,
  as_float32s, as_float64s, as_strings, as_binaries,
}

-- The two loops over a column of words: `PutUintN(buf[i*w:], f(v))` and
-- `g(UintN(data[i*w:]))` for n rounds.
unfoldable pub put_words {ℓ} : {A : Type ℓ} → ℕ → (A → ℕ) → List A → Bytes
put_words w f [] = []
put_words w f (v ∷ vs) = put_le w (f v) ++ put_words w f vs

unfoldable pub get_words {ℓ} : {A : Type ℓ} → ℕ → (ℕ → A) → ℕ → Bytes → List A
get_words w g zero bytes = []
get_words w g (suc n) bytes = g (get_le (take w bytes)) ∷ get_words w g n (drop w bytes)

unfoldable pub serialize_int64 : List ℤ → Bytes
serialize_int64 d = put_words 8 to_u64 d

unfoldable pub serialize_int32 : List ℤ → Bytes
serialize_int32 d = put_words 4 to_u32 d

unfoldable pub serialize_float32 : List ℕ → Bytes
serialize_float32 d = put_words 4 (λ bits. bits) d

unfoldable pub serialize_float64 : List ℕ → Bytes
serialize_float64 d = put_words 8 (λ bits. bits) d

-- `serializeStrings`: a length and the bytes, one after the other
unfoldable pub serialize_strings : List Bytes → Bytes
serialize_strings [] = []
serialize_strings (s ∷ ss) = write_i32 (to_i32 (length s)) ++ (s ++ serialize_strings ss)

-- `serializeBytes`
unfoldable pub serialize_bytes : List Bytes → Bytes
serialize_bytes [] = []
serialize_bytes (b ∷ bs) = write_i32 (to_i32 (length b)) ++ (b ++ serialize_bytes bs)

unfoldable pub deserialize_int64 : Bytes → List ℤ
deserialize_int64 bytes = get_words 8 to_i64 (length bytes / 8) bytes

unfoldable pub deserialize_int32 : Bytes → List ℤ
deserialize_int32 bytes = get_words 4 to_i32 (length bytes / 4) bytes

unfoldable pub deserialize_float32 : Bytes → List ℕ
deserialize_float32 bytes = get_words 4 (λ bits. bits) (length bytes / 4) bytes

unfoldable pub deserialize_float64 : Bytes → List ℕ
deserialize_float64 bytes = get_words 8 (λ bits. bits) (length bytes / 8) bytes

-- `if err != nil { return result }`: an error of a read ends the loop with what it has.
abbrev pub until_error {ℓ} :
    {A : Type ℓ} → Result A → (A → Result (List Bytes)) → Result (List Bytes)
until_error (ok a) next = next a
until_error (err e) next = ok []
until_error panic next = panic

-- The loop `for reader.Len() > 0`. A round that goes on has read four bytes at least, so
-- as many rounds as there are bytes are enough.
unfoldable pub text_loop : ℕ → Bytes → Result (List Bytes)
text_loop fuel [] = ok []
text_loop zero (b ∷ bs) = ok []
text_loop (suc fuel) (b ∷ bs) =
    until_error (read_i32 (b ∷ bs))
      λ (len, r). until_error (read_sized len r) λ (s, r'). do ss ← text_loop fuel r'; ok (s ∷ ss)

unfoldable pub deserialize_strings : Bytes → Result (List Bytes)
deserialize_strings bytes = text_loop (length bytes) bytes

unfoldable pub deserialize_bytes : Bytes → Result (List Bytes)
deserialize_bytes bytes = text_loop (length bytes) bytes

-- `(*MiniBlockEncoder).serialize`
unfoldable pub serialize : Column → DataType → Result Bytes
serialize c DataType.int64 = do d ← as_int64s c; ok (serialize_int64 d)
serialize c DataType.int32 = do d ← as_int32s c; ok (serialize_int32 d)
serialize c DataType.float32 = do d ← as_float32s c; ok (serialize_float32 d)
serialize c DataType.fixed_size_list = do d ← as_float32s c; ok (serialize_float32 d)
serialize c DataType.float64 = do d ← as_float64s c; ok (serialize_float64 d)
serialize c DataType.string = do d ← as_strings c; ok (serialize_strings d)
serialize c DataType.binary = do d ← as_binaries c; ok (serialize_bytes d)
serialize c _ = err unsupported_type

-- `(*MiniBlockEncoder).deserialize`; the row count is not looked at.
unfoldable pub deserialize : Bytes → DataType → Result Column
deserialize bytes DataType.int64 = ok (int64s (deserialize_int64 bytes))
deserialize bytes DataType.int32 = ok (int32s (deserialize_int32 bytes))
deserialize bytes DataType.float32 = ok (float32s (deserialize_float32 bytes))
deserialize bytes DataType.fixed_size_list = ok (float32s (deserialize_float32 bytes))
deserialize bytes DataType.float64 = ok (float64s (deserialize_float64 bytes))
deserialize bytes DataType.string = do d ← deserialize_strings bytes; ok (strings d)
deserialize bytes DataType.binary = do d ← deserialize_bytes bytes; ok (binaries d)
deserialize bytes _ = err unsupported_type

-- `(*MiniBlockEncoder).emptyResult`
unfoldable pub empty_result : DataType → Result Column
empty_result DataType.int64 = ok (int64s [])
empty_result DataType.int32 = ok (int32s [])
empty_result DataType.float32 = ok (float32s [])
empty_result DataType.fixed_size_list = ok (float32s [])
empty_result DataType.float64 = ok (float64s [])
empty_result DataType.string = ok (strings [])
empty_result DataType.binary = ok (binaries [])
empty_result _ = err unsupported_type
