-- ===== src/Storage/FileFooter.antt =====
-- storage/file_footer.go: the 40 bytes at the end of a .lance file.
pub mod RoundTrip
use golance_db.Prelude.{
  ℕ, ◌+◌, ◌-◌, ◌<◌, ◌≡◌, Bool, List, [], ◌∷◌, ◌++◌, length, take, drop, ltb, leb, if◌then◌else◌,
  not, Option, none, some, Result, ok, err, ◌>>=◌, short_footer, bad_magic, short_file, eof, Error,
  write_failed, arith,
}
use golance_db.Prelude.Int.{ℤ, pos, negsuc, to_u32, to_i32, to_u64, to_i64}
use golance_db.Bytes.{Bytes, put_le, get_le, beq}

-- "LANC"
abbrev pub magic_bytes : Bytes
magic_bytes = b'L' ∷ b'A' ∷ b'N' ∷ b'C' ∷ []

abbrev pub footer_size : ℕ
footer_size = 8 + 8 + 8 + 4 + 4 + 2 + 2 + 4

pub record FileFooter : Type 0 where
  pub column_metadata_offset : ℤ
  pub column_metadata_offset_table_offset : ℤ
  pub global_buffers_offset_table_offset : ℤ
  pub num_global_buffers : ℤ
  pub num_columns : ℤ
  pub major_version : ℕ
  pub minor_version : ℕ
  pub magic : Bytes

-- `NewFileFooter`
unfoldable pub new_file_footer : ℤ → FileFooter
new_file_footer num_columns = record {
  column_metadata_offset = pos 0;
  column_metadata_offset_table_offset = pos 0;
  global_buffers_offset_table_offset = pos 0;
  num_global_buffers = pos 0;
  num_columns = num_columns;
  major_version = 2;
  minor_version = 1;
  magic = magic_bytes;
}

-- `Serialize`: the fields fill the buffer from its first byte to its last.
unfoldable pub footer_serialize : FileFooter → Bytes
footer_serialize f =
    put_le 8 (to_u64 f.column_metadata_offset)
    ++ (put_le 8 (to_u64 f.column_metadata_offset_table_offset)
        ++ (put_le 8 (to_u64 f.global_buffers_offset_table_offset)
            ++ (put_le 4 (to_u32 f.num_global_buffers)
                ++ (put_le 4 (to_u32 f.num_columns)
                    ++ (put_le 2 f.major_version ++ (put_le 2 f.minor_version ++ f.magic))))))

-- `b[lo:hi]`
abbrev pub slice : ℕ → ℕ → Bytes → Bytes
slice lo hi bytes = take (hi - lo) (drop lo bytes)

-- The fields that `DeserializeFooter` reads.
unfoldable pub footer_fields : Bytes → FileFooter
footer_fields bytes = record {
  column_metadata_offset = to_i64 (get_le (slice 0 8 bytes));
  column_metadata_offset_table_offset = to_i64 (get_le (slice 8 16 bytes));
  global_buffers_offset_table_offset = to_i64 (get_le (slice 16 24 bytes));
  num_global_buffers = to_i32 (get_le (slice 24 28 bytes));
  num_columns = to_i32 (get_le (slice 28 32 bytes));
  major_version = get_le (slice 32 34 bytes);
  minor_version = get_le (slice 34 36 bytes);
  magic = slice 36 40 bytes;
}

-- `DeserializeFooter`
unfoldable pub deserialize_footer : Bytes → Result FileFooter
deserialize_footer bytes =
    if ltb (length bytes) footer_size
    then err short_footer
    else let f = footer_fields bytes in if beq f.magic magic_bytes then ok f else err bad_magic

-- `WriteFooter`, to any writer: a write gives the writer's next state, or fails.
unfoldable pub write_footer {ℓ} : {W : Type ℓ} → (Bytes → W → Option W) → FileFooter → W → Result W
write_footer write f w = elim (write (footer_serialize f) w) [
  | none ↦ err write_failed
  | some w' ↦ ok w'
]

-- An `io.ReaderAt`: what `ReadAt` puts into a buffer of n bytes from an offset on, and its error
abbrev pub ReaderAt : Type 0
ReaderAt = ℕ → ℕ → Bytes × Option Error

-- Any error of `ReadAt` is one of `ReadFooter`, also where the buffer is full.
abbrev pub filled : Bytes × Option Error → Result Bytes
filled (buf, none) = ok buf
filled (buf, some why) = err why

-- `ReadFooter`; the size is what the caller says that it is.
unfoldable pub read_footer : ReaderAt → ℤ → Result FileFooter
read_footer r (pos size) =
    if ltb size footer_size
    then err short_file
    else do buf ← filled (r (size - footer_size) footer_size); deserialize_footer buf
read_footer r (negsuc n) = err short_file
