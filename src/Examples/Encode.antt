-- ===== src/Examples/Encode.antt =====
-- The encode and distance packages at concrete inputs.
use golance_db.Prelude.{
  ℕ, ◌≡◌, refl, List, [], ◌∷◌, ◌<◌, ◌^◌, drop, length, Option, none, some, ok, arith, ok-injective,
}
use golance_db.Prelude.Int.{pos, negsuc}
use golance_db.Prelude.Sort.{Sorter, insertion_sorter}
use golance_db.Bytes.{Bytes}
use golance_db.Encode.Types.{DataType, CompressionType, Column, int64s, strings}
use golance_db.Encode.Compression.{Codec, CodecLaws, IsTotal}
use golance_db.Encode.Serialize.{serialize, deserialize}
use golance_db.Encode.Serialize.RoundTrip.{Fits, deserialize-serialize}
use golance_db.Encode.MiniBlock.{MiniBlockEncoder, split_blocks, encode, decode}
use golance_db.Encode.MiniBlock.Blocks.{IsCut, split_blocks-IsCut}
use golance_db.Encode.MiniBlock.RoundTrip.{IsUsable, encode-decode_total}
use golance_db.Encode.Constant.{constant_encode, constant_decode}
use golance_db.Encode.Constant.RoundTrip.{Value, rows, constant_decode-encode}
use golance_db.Distance.{SearchResult, by_score, top_k}
use golance_db.Distance.TopK.{IsNearest, top_k-IsNearest}
use mathlib.Core.Path.{subst}
use mathlib.Core.Option.{some-injective}

-- A codec that marks what it encoded with a byte of its own in front
abbrev pub unmark : ℕ → Bytes → Option Bytes
unmark mark [] = none
unmark mark (b ∷ d) = some d

abbrev pub marking : Codec
marking = record {
  zstd_encode = λ d. some (40 ∷ d);
  zstd_decode = unmark 40;
  lz4_encode = λ d. some (4 ∷ d);
  lz4_decode = unmark 4;
}

pub marking-CodecLaws : CodecLaws marking
marking-CodecLaws = record {
  zstd_inverse = λ d e h. marked 40 d e h;
  lz4_inverse = λ d e h. marked 4 d e h;
  zstd_bound = λ d e h k. ground arith;
  lz4_bound = λ d e h k. ground arith;
}
  where
    marked : (mark : ℕ) (d e : Bytes) → some (mark ∷ d) ≡ some e → unmark mark e ≡ some d
    marked mark d e h = subst (λ o. unmark mark o ≡ some d) (some-injective (mark ∷ d) e h) refl

marking-IsTotal : IsTotal marking
marking-IsTotal = record { zstd_total = λ d. (40 ∷ d, refl); lz4_total = λ d. (4 ∷ d, refl) }

abbrev numbers : Column
numbers = int64s (pos 7 ∷ negsuc 2 ∷ [])

-- Blocks of five bytes: the sixteen bytes of the column make four.
abbrev encoder : MiniBlockEncoder
encoder = record { compression = CompressionType.zstd; block_size = pos 5 }

encoder-IsUsable : IsUsable encoder
encoder-IsUsable = record { int32 = omega arith; small = omega arith }

numbers-Fits : Fits DataType.int64 numbers
numbers-Fits = (omega arith, (omega arith, tt))

sixteen : (buf : Bytes) → serialize numbers DataType.int64 ≡ ok buf → length buf < 2 ^ 31
unfolding serialize golance_db.Encode.Serialize.serialize_int64
    golance_db.Encode.Serialize.put_words
sixteen buf h = subst (λ b. length b < 2 ^ 31) (ok-injective h) (omega arith)

encode-decode_total_example :
    (page : Bytes) × (encode marking encoder numbers DataType.int64 ≡ ok page)
    × (decode marking encoder page DataType.int64 (pos 2) ≡ ok numbers)
encode-decode_total_example =
    encode-decode_total marking marking-CodecLaws encoder encoder-IsUsable numbers DataType.int64
      (pos 2) marking-IsTotal tt numbers-Fits sixteen

split_blocks-IsCut_example :
    IsCut 5 (1 ∷ 2 ∷ 3 ∷ 4 ∷ 5 ∷ 6 ∷ 7 ∷ []) (split_blocks encoder (1 ∷ 2 ∷ 3 ∷ 4 ∷ 5 ∷ 6 ∷ 7 ∷ []))
split_blocks-IsCut_example = split_blocks-IsCut encoder (1 ∷ 2 ∷ 3 ∷ 4 ∷ 5 ∷ 6 ∷ 7 ∷ [])

abbrev names : Column
names = strings ((97 ∷ 98 ∷ []) ∷ [] ∷ (99 ∷ []) ∷ [])

deserialize-serialize_example :
    (bytes : Bytes) × (serialize names DataType.string ≡ ok bytes)
    × (deserialize bytes DataType.string ≡ ok names)
deserialize-serialize_example =
    deserialize-serialize DataType.string names (omega arith, (omega arith, (omega arith, tt)))

constant_decode-encode_example :
    (page : Bytes) × (constant_encode (rows (Value.int32 (negsuc 4)) 3) DataType.int32 ≡ ok page)
    × (constant_decode page DataType.int32 (pos 5) ≡ ok (rows (Value.int32 (negsuc 4)) 5))
constant_decode-encode_example =
    constant_decode-encode (Value.int32 (negsuc 4)) 2 5 (omega arith) (omega arith)

abbrev scores : List SearchResult
scores =
    record { row_id = pos 0; score = 5 }
    ∷ record { row_id = pos 1; score = 2 }
    ∷ record { row_id = pos 2; score = 9 }
    ∷ []

abbrev sorter : Sorter SearchResult by_score
sorter = insertion_sorter by_score

top_k-IsNearest_example :
    IsNearest 2 scores (top_k sorter scores (pos 2)) (drop 2 (sorter.slice scores))
top_k-IsNearest_example = top_k-IsNearest sorter 1 scores (refl, (refl, (refl, tt)))
