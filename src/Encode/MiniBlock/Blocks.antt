-- ===== src/Encode/MiniBlock/Blocks.antt =====
-- `splitBlocks` and the block loops of encode/miniblock.go.
use golance_db.Prelude.{
  ℕ, zero, suc, ◌+◌, ◌-◌, ◌*◌, ◌^◌, ◌≤◌, ◌<◌, ◌≡◌, refl, List, [], ◌∷◌, ◌++◌, length, drop, concat,
  All, ok, ◌>>=◌, >>=-eq-ok, ok-injective, arith, take-append-drop, length-take, length-drop,
}
use golance_db.Prelude.Int.{ℤ, pos, negsuc, to_i32}
use golance_db.Bytes.{Bytes, write_i32, read_len-append, read_sized-append}
use golance_db.Encode.Types.{CompressionType}
use golance_db.Encode.Compression.{Codec, CodecLaws, compress, decompress-compress, length-compress}
use golance_db.Encode.MiniBlock.{
  MiniBlockEncoder, split_loop, split_blocks, write_blocks, read_blocks, effective_size,
}
use mathlib.Core.List.{append_assoc}

abbrev pub IsBlock : ℕ → Bytes → Type 0
IsBlock size b = (0 < length b) × (length b ≤ size)

-- What the cut of a byte slice has to give.
pub record IsCut (size : ℕ) (bytes : Bytes) (blocks : List Bytes) : Type 0 where
  pub whole : concat blocks ≡ bytes
  pub sizes : All (IsBlock size) blocks
  pub fewest : length blocks * size < length bytes + size

fewest_step :
    (k size l d : ℕ)
    → 0 < size
    → d ≡ suc l - size
    → k * size < d + size
    → suc k * size < suc l + size
fewest_step zero size l d s e h = omega arith
fewest_step (suc k) size l d s e h = omega arith

split_loop-IsCut :
    (fuel size : ℕ) (bytes : Bytes)
    → 0 < size
    → length bytes ≤ fuel
    → IsCut size bytes (split_loop fuel size bytes)
unfolding split_loop
split_loop-IsCut zero size [] s h = record { whole = refl; sizes = tt; fewest = omega arith }
split_loop-IsCut (suc fuel) size [] s h = record { whole = refl; sizes = tt; fewest = omega arith }
split_loop-IsCut zero size (b ∷ bs) s h = absurd (omega arith)
split_loop-IsCut (suc fuel) size (b ∷ bs) s h =
    let rest =
      split_loop-IsCut fuel size (drop size (b ∷ bs)) s
        (omega (arith, length-drop size (b ∷ bs))) in
    record {
      whole = rw rest.whole (take-append-drop size (b ∷ bs));
      sizes = (
        (omega (arith, length-take size (b ∷ bs)), omega (arith, length-take size (b ∷ bs))),
        rest.sizes,
      );
      fewest = fewest_step _ size _ _ s (length-drop size (b ∷ bs)) rest.fewest;
    }

pub effective_size_pos : (z : ℤ) → 0 < effective_size z
effective_size_pos (pos zero) = omega arith
effective_size_pos (pos (suc n)) = omega arith
effective_size_pos (negsuc n) = omega arith

-- The blocks are the bytes in order; none is empty or longer than the block size, and there are
-- no more of them than it takes.
pub split_blocks-IsCut :
    (e : MiniBlockEncoder) (bytes : Bytes)
    → IsCut (effective_size e.block_size) bytes (split_blocks e bytes)
unfolding split_blocks
split_blocks-IsCut e bytes =
    split_loop-IsCut (length bytes) (effective_size e.block_size) bytes
      (effective_size_pos e.block_size) (omega arith)

module _ (c : Codec) (laws : CodecLaws c) (algo : CompressionType) where
  read_block :
      (n : ℕ) (block z rest : Bytes)
      → compress c block algo ≡ ok z
      → length block ≤ 2 ^ 30
      → read_blocks c algo (suc n) (write_i32 (to_i32 (length z)) ++ (z ++ rest))
        ≡ (read_blocks c algo n rest >>= λ r. ok (block ++ r))
  unfolding read_blocks
  read_block n block z rest e h =
      let short = length-compress c laws block z algo e h in
      rw (
        read_len-append z (z ++ rest) short,
        read_sized-append z rest short,
        decompress-compress c laws block z algo e,
      )

  read_page :
      (n : ℕ) (block z q rest bytes : Bytes)
      → compress c block algo ≡ ok z
      → length block ≤ 2 ^ 30
      → read_blocks c algo n (q ++ rest) ≡ ok bytes
      → read_blocks c algo (suc n) ((write_i32 (to_i32 (length z)) ++ (z ++ q)) ++ rest)
        ≡ ok (block ++ bytes)
  read_page n block z q rest bytes e h ih = rw (
    append_assoc (write_i32 (to_i32 (length z))) (z ++ q) rest,
    append_assoc z q rest,
    read_block n block z (q ++ rest) e h,
    ih,
  )

  -- The blocks of a page are read back in order, whatever follows them.
  pub read_blocks-write_blocks :
      (blocks : List Bytes) (page rest : Bytes)
      → write_blocks c algo blocks ≡ ok page
      → All (λ b. length b ≤ 2 ^ 30) blocks
      → read_blocks c algo (length blocks) (page ++ rest) ≡ ok (concat blocks)
  unfolding write_blocks
  read_blocks-write_blocks [] page rest h p = unfold read_blocks in refl
  read_blocks-write_blocks (b ∷ bs) page rest h p =
      let (z, hz, h1) = >>=-eq-ok (compress c b algo) _ h in
      let (q, hq, h2) = >>=-eq-ok (write_blocks c algo bs) _ h1 in
      rw (← ok-injective h2) (
        read_page (length bs) b z q rest (concat bs) hz p.0
          (read_blocks-write_blocks bs q rest hq p.1))
