-- ===== src/Encode/MiniBlock.antt =====
-- encode/miniblock.go: a column is serialised, cut into blocks, and each block compressed.
pub mod Blocks
pub mod RoundTrip
use golance_db.Prelude.{
  ℕ, zero, suc, List, [], ◌∷◌, ◌++◌, length, take, drop, Result, ok, err, ◌>>=◌,
}
use golance_db.Prelude.Int.{ℤ, pos, negsuc, to_i32}
use golance_db.Bytes.{Bytes, read_i32, read_full, read_sized, write_i32}
use golance_db.Encode.Types.{DataType, CompressionType, Column, encoding_mini_block}
use golance_db.Encode.Compression.{Codec, compress, decompress}
use golance_db.Encode.Serialize.{serialize, deserialize, empty_result}

abbrev pub default_mini_block_size : ℕ
default_mini_block_size = 4096

pub record MiniBlockEncoder : Type 0 where
  pub compression : CompressionType
  pub block_size : ℤ

-- `NewMiniBlockEncoder`
abbrev pub new_mini_block_encoder : CompressionType → MiniBlockEncoder
new_mini_block_encoder compression = record {
  compression = compression;
  block_size = pos default_mini_block_size;
}

-- `if blockSize <= 0 { blockSize = int(defaultMiniBlockSize) }`
abbrev pub effective_size : ℤ → ℕ
effective_size (pos zero) = default_mini_block_size
effective_size (pos (suc n)) = suc n
effective_size (negsuc n) = default_mini_block_size

-- The loop of `splitBlocks`: the list is `data[i:]`. A round takes a byte at least, so as many
-- rounds as there are bytes are enough.
unfoldable pub split_loop : ℕ → ℕ → Bytes → List Bytes
split_loop fuel size [] = []
split_loop zero size (b ∷ bs) = []
split_loop (suc fuel) size (b ∷ bs) = take size (b ∷ bs) ∷ split_loop fuel size (drop size (b ∷ bs))

unfoldable pub split_blocks : MiniBlockEncoder → Bytes → List Bytes
split_blocks e bytes = split_loop (length bytes) (effective_size e.block_size) bytes

-- The loop of `Encode` over the blocks.
unfoldable pub write_blocks : Codec → CompressionType → List Bytes → Result Bytes
write_blocks c algo [] = ok []
write_blocks c algo (block ∷ blocks) = do
  compressed ← compress c block algo
  page ← write_blocks c algo blocks
  ok (write_i32 (to_i32 (length compressed)) ++ (compressed ++ page))

unfoldable pub encode : Codec → MiniBlockEncoder → Column → DataType → Result Bytes
encode c e column t = do
  buf ← serialize column t
  let blocks = split_blocks e buf
  body ← write_blocks c e.compression blocks
  ok (
      write_i32 encoding_mini_block
      ++ (write_i32 (to_i32 (length blocks)) ++ (write_i32 e.block_size ++ body)))

-- `for i := int32(0); i < numBlocks; i++` makes no round at a negative count.
abbrev pub rounds : ℤ → ℕ
rounds (pos n) = n
rounds (negsuc n) = 0

-- The loop of `Decode`; the result is what goes to `dataBuf`.
unfoldable pub read_blocks : Codec → CompressionType → ℕ → Bytes → Result Bytes
read_blocks c algo zero r = ok []
read_blocks c algo (suc n) r = do
  (block_len, r') ← read_i32 r
  (compressed, r'') ← read_sized block_len r'
  block ← decompress c compressed algo
  rest ← read_blocks c algo n r''
  ok (block ++ rest)

decode_page : Codec → MiniBlockEncoder → Bytes → DataType → Result Column
decode_page c e encoded t = do
  (_, r) ← read_i32 encoded
  (num_blocks, r') ← read_i32 r
  (_, r'') ← read_i32 r'
  buf ← read_blocks c e.compression (rounds num_blocks) r''
  deserialize buf t

unfoldable pub decode : Codec → MiniBlockEncoder → Bytes → DataType → ℤ → Result Column
unfolding decode_page
decode c e [] t num_rows = empty_result t
decode c e (b ∷ bs) t num_rows = decode_page c e (b ∷ bs) t
