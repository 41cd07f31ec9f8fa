-- ===== src/Encode/MiniBlock/RoundTrip.antt =====
-- `Encode` and `Decode` of encode/miniblock.go.
use golance_db.Prelude.{
  ℕ, zero, suc, ◌+◌, ◌*◌, ◌^◌, ◌≤◌, ◌<◌, ◌≡◌, refl, ap, sym, ◌∙◌, List, [], ◌∷◌, ◌++◌, length, ok,
  ◌>>=◌, >>=-eq-ok, ok-injective, arith, All_imp, append_nil,
}
use golance_db.Prelude.Int.{ℤ, pos, to_i32, IsInt32}
use golance_db.Bytes.{Bytes, write_i32, read_i32-write_i32, to_i32_of_lt}
use golance_db.Encode.Types.{DataType, Column, encoding_mini_block}
use golance_db.Encode.Compression.{Codec, CodecLaws, IsTotal, IsKnown, compress_total}
use golance_db.Encode.Serialize.{serialize, deserialize}
use golance_db.Encode.Serialize.RoundTrip.{Fits, deserialize-serialize}
use golance_db.Encode.MiniBlock.{
  MiniBlockEncoder, effective_size, split_blocks, write_blocks, read_blocks, rounds, encode,
  decode_page, decode,
}
use golance_db.Encode.MiniBlock.Blocks.{
  IsBlock, effective_size_pos, split_blocks-IsCut, read_blocks-write_blocks,
}
use native.Mathlib.Nat.{mul-suc}

-- An encoder that the format can hold: the block size is an int32, and no block passes 2^30.
pub record IsUsable (e : MiniBlockEncoder) : Type 0 where
  pub int32 : IsInt32 e.block_size
  pub small : effective_size e.block_size ≤ 2 ^ 30

count_bound : (k size n : ℕ) → 0 < size → k * size < n + size → n < 2 ^ 31 → k < 2 ^ 31
count_bound k zero n s h b = absurd (omega arith)
count_bound zero (suc size) n s h b = omega arith
count_bound (suc k) (suc size) n s h b = omega (arith, mul-suc k size)

module _ (c : Codec) (laws : CodecLaws c) (e : MiniBlockEncoder) (u : IsUsable e) where
  decode_page-header :
      (num : ℤ) (body : Bytes) (t : DataType)
      → IsInt32 num
      → decode_page c e
          (write_i32 encoding_mini_block ++ (write_i32 num ++ (write_i32 e.block_size ++ body)))
          t
        ≡ (read_blocks c e.compression (rounds num) body >>= λ buf. deserialize buf t)
  unfolding decode_page
  decode_page-header num body t h = rw (
    read_i32-write_i32 encoding_mini_block (write_i32 num ++ (write_i32 e.block_size ++ body))
        (omega arith),
    read_i32-write_i32 num (write_i32 e.block_size ++ body) h,
    read_i32-write_i32 e.block_size body u.int32,
  )

  blocks_fit_int32 : (buf : Bytes) → length buf < 2 ^ 31 → length (split_blocks e buf) < 2 ^ 31
  blocks_fit_int32 buf h =
      count_bound _ (effective_size e.block_size) (length buf) (effective_size_pos e.block_size)
        (split_blocks-IsCut e buf).fewest h

  decode_page-eq_column :
      (buf body : Bytes) (t : DataType) (column : Column)
      → length buf < 2 ^ 31
      → write_blocks c e.compression (split_blocks e buf) ≡ ok body
      → deserialize buf t ≡ ok column
      → decode_page c e
          (write_i32 encoding_mini_block
            ++ (write_i32 (to_i32 (length (split_blocks e buf)))
                ++ (write_i32 e.block_size ++ body)))
          t
        ≡ ok column
  decode_page-eq_column buf body t column short written back =
      let cut = split_blocks-IsCut e buf in
      let fit = blocks_fit_int32 buf short in
      let num : to_i32 (length (split_blocks e buf)) ≡ pos (length (split_blocks e buf)) =
        to_i32_of_lt _ fit in
      let read : read_blocks c e.compression (length (split_blocks e buf)) body ≡ ok buf =
        ap (read_blocks c e.compression (length (split_blocks e buf))) (sym (append_nil body))
        ∙ (read_blocks-write_blocks c laws e.compression (split_blocks e buf) body [] written (
              All_imp (IsBlock (effective_size e.block_size)) (λ b. length b ≤ 2 ^ 30)
                (λ b h. omega arith) (split_blocks e buf) cut.sizes)
            ∙ ap ok cut.whole) in
      rw (num, decode_page-header (pos (length (split_blocks e buf))) body t (omega arith), read)
        back

  -- A page that `Encode` wrote for a column that fits its data type decodes to that column,
  -- whatever row count is asked for.
  pub decode-encode :
      (column : Column) (t : DataType) (page : Bytes) (num_rows : ℤ)
      → Fits t column
      → ((buf : Bytes) → serialize column t ≡ ok buf → length buf < 2 ^ 31)
      → encode c e column t ≡ ok page
      → decode c e page t num_rows ≡ ok column
  unfolding encode decode
  decode-encode column t page num_rows fits short h =
      let (buf, hs, hd) = deserialize-serialize t column fits in
      let (buf', hs', h1) = >>=-eq-ok (serialize column t) _ h in
      let (body, hb, h2) = >>=-eq-ok (write_blocks c e.compression (split_blocks e buf')) _ h1 in
      rw (← ok-injective h2) (
        decode_page-eq_column buf' body t column (short buf' hs') hb
          (rw (ok-injective (sym hs' ∙ hs)) hd))

  write_blocks_total :
      (blocks : List Bytes)
      → IsTotal c
      → IsKnown e.compression
      → (page : Bytes) × (write_blocks c e.compression blocks ≡ ok page)
  unfolding write_blocks
  write_blocks_total [] t k = ([], refl)
  write_blocks_total (block ∷ blocks) t k =
      let (z, hz) = compress_total c block e.compression t k in
      let (page, hp) = write_blocks_total blocks t k in
      (write_i32 (to_i32 (length z)) ++ (z ++ page), rw (hz, hp) refl)

  encode_total :
      (column : Column) (t : DataType)
      → IsTotal c
      → IsKnown e.compression
      → Fits t column
      → (page : Bytes) × (encode c e column t ≡ ok page)
  unfolding encode
  encode_total column t total known fits =
      let (buf, hs, hd) = deserialize-serialize t column fits in
      let (body, hb) = write_blocks_total (split_blocks e buf) total known in
      (
        write_i32 encoding_mini_block
            ++ (write_i32 (to_i32 (length (split_blocks e buf)))
                ++ (write_i32 e.block_size ++ body)),
        rw (hs, hb) refl,
      )

  -- For an encoder whose block size is an int32 of at most 2^30, a codec that obeys its laws and
  -- never fails to encode, and a compression type that is known, a column that fits its data
  -- type and serialises to less than 2^31 bytes is encoded, and its page decodes to the same
  -- column, whatever row count is asked for.
  pub encode-decode_total :
      (column : Column) (t : DataType) (num_rows : ℤ)
      → IsTotal c
      → IsKnown e.compression
      → Fits t column
      → ((buf : Bytes) → serialize column t ≡ ok buf → length buf < 2 ^ 31)
      → (page : Bytes) × (encode c e column t ≡ ok page) × (decode c e page t num_rows ≡ ok column)
  encode-decode_total column t num_rows total known fits short =
      let (page, h) = encode_total column t total known fits in
      (page, h, decode-encode column t page num_rows fits short h)
