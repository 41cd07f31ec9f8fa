-- ===== src/Encode/Compression.antt =====
-- encode/compression.go. The zstd and lz4 packages are parameters: a codec, and its documented
-- laws. An error of the packages is `none`.
use golance_db.Prelude.{
  ◌^◌, ◌≤◌, ◌<◌, ◌≡◌, refl, Option, none, some, length, Result, ok, err, codec_failed,
  unknown_compression, arith,
}
use golance_db.Bytes.{Bytes}
use golance_db.Encode.Types.{CompressionType}

pub record Codec : Type 0 where
  pub zstd_encode : Bytes → Option Bytes
  pub zstd_decode : Bytes → Option Bytes
  pub lz4_encode : Bytes → Option Bytes
  pub lz4_decode : Bytes → Option Bytes

-- Decoding undoes encoding, and a gigabyte does not grow to two.
pub record CodecLaws (c : Codec) : Type 0 where
  pub zstd_inverse : (d e : Bytes) → c.zstd_encode d ≡ some e → c.zstd_decode e ≡ some d
  pub lz4_inverse : (d e : Bytes) → c.lz4_encode d ≡ some e → c.lz4_decode e ≡ some d
  pub zstd_bound : (d e : Bytes) → c.zstd_encode d ≡ some e → length d ≤ 2 ^ 30 → length e < 2 ^ 31
  pub lz4_bound : (d e : Bytes) → c.lz4_encode d ≡ some e → length d ≤ 2 ^ 30 → length e < 2 ^ 31

-- The codec never fails to encode.
pub record IsTotal (c : Codec) : Type 0 where
  pub zstd_total : (d : Bytes) → (e : Bytes) × (c.zstd_encode d ≡ some e)
  pub lz4_total : (d : Bytes) → (e : Bytes) × (c.lz4_encode d ≡ some e)

-- The compression types that have a name
abbrev pub IsKnown : CompressionType → Type 0
IsKnown (CompressionType.unknown n) = ⊥
IsKnown _ = Unit

abbrev or_failed : Option Bytes → Result Bytes
or_failed none = err codec_failed
or_failed (some b) = ok b

-- `Compress`
unfoldable pub compress : Codec → Bytes → CompressionType → Result Bytes
compress c d CompressionType.none = ok d
compress c d CompressionType.zstd = or_failed (c.zstd_encode d)
compress c d CompressionType.lz4 = or_failed (c.lz4_encode d)
compress c d (CompressionType.unknown n) = err unknown_compression

-- `Decompress`
unfoldable pub decompress : Codec → Bytes → CompressionType → Result Bytes
decompress c d CompressionType.none = ok d
decompress c d CompressionType.zstd = or_failed (c.zstd_decode d)
decompress c d CompressionType.lz4 = or_failed (c.lz4_decode d)
decompress c d (CompressionType.unknown n) = err unknown_compression

module _ (c : Codec) (laws : CodecLaws c) where
  -- What was compressed decompresses to the same bytes.
  pub decompress-compress :
      (d e : Bytes) (algo : CompressionType) → compress c d algo ≡ ok e → decompress c e algo ≡ ok d
  unfolding compress decompress
  decompress-compress d e CompressionType.none h = cc
  decompress-compress d e CompressionType.zstd h = ground (arith, laws.zstd_inverse d e)
  decompress-compress d e CompressionType.lz4 h = ground (arith, laws.lz4_inverse d e)
  decompress-compress d e (CompressionType.unknown n) h = cc

  pub length-compress :
      (d e : Bytes) (algo : CompressionType)
      → compress c d algo ≡ ok e
      → length d ≤ 2 ^ 30
      → length e < 2 ^ 31
  unfolding compress
  length-compress d e CompressionType.none h k = ground arith
  length-compress d e CompressionType.zstd h k = ground (arith, laws.zstd_bound d e)
  length-compress d e CompressionType.lz4 h k = ground (arith, laws.lz4_bound d e)
  length-compress d e (CompressionType.unknown n) h k = cc

-- A total codec compresses anything with a known compression type.
pub compress_total :
    (c : Codec) (d : Bytes) (algo : CompressionType)
    → IsTotal c
    → IsKnown algo
    → (e : Bytes) × (compress c d algo ≡ ok e)
unfolding compress
compress_total c d CompressionType.none t k = (d, refl)
compress_total c d CompressionType.zstd t k = let (e, h) = t.zstd_total d in (e, rw h refl)
compress_total c d CompressionType.lz4 t k = let (e, h) = t.lz4_total d in (e, rw h refl)
compress_total c d (CompressionType.unknown n) t k = absurd k
