-- ===== src/Storage/FileFooter/RoundTrip.antt =====
-- What was written by storage/file_footer.go is read back.
use golance_db.Prelude.{
  ℕ, ◌+◌, ◌-◌, ◌^◌, ◌<◌, ◌≡◌, ap, ◌∙◌, ◌++◌, length, ok, err, ltb, if◌then◌else◌, bad_magic, arith,
  le→not_ltb, length-append, drop-append, take_all, false, take, drop, Option, none, some, Error,
  eof, ◌⊎◌, inl, inr, ◌≤◌, refl,
}
use golance_db.Prelude.Int.{
  ℤ, pos, IsInt32, IsInt64, to_u32, to_u64, to_i32, to_i64, to_i32-to_u32, to_i64-to_u64,
  to_u32_bound, to_u64_bound,
}
use golance_db.Bytes.{Bytes, put_le, get_le, beq, beq_iff, get_le-put_le}
use golance_db.Storage.FileFooter.{
  FileFooter, footer_fields, footer_serialize, deserialize_footer, read_footer, ReaderAt, filled,
  footer_size, magic_bytes,
}

-- Each field holds a value of its Go type.
pub record IsFooter (f : FileFooter) : Type 0 where
  pub column_metadata_offset : IsInt64 f.column_metadata_offset
  pub column_metadata_offset_table_offset : IsInt64 f.column_metadata_offset_table_offset
  pub global_buffers_offset_table_offset : IsInt64 f.global_buffers_offset_table_offset
  pub num_global_buffers : IsInt32 f.num_global_buffers
  pub num_columns : IsInt32 f.num_columns
  pub major_version : f.major_version < 2 ^ 16
  pub minor_version : f.minor_version < 2 ^ 16
  pub magic : length f.magic ≡ 4

pub length-footer_serialize :
    (f : FileFooter) → length f.magic ≡ 4 → length (footer_serialize f) ≡ footer_size
unfolding footer_serialize
length-footer_serialize f h = omega arith

int64_field : (v : ℤ) → IsInt64 v → to_i64 (get_le (put_le 8 (to_u64 v))) ≡ v
int64_field v h = ap to_i64 (get_le-put_le 8 (to_u64 v) (to_u64_bound v)) ∙ to_i64-to_u64 v h

int32_field : (v : ℤ) → IsInt32 v → to_i32 (get_le (put_le 4 (to_u32 v))) ≡ v
int32_field v h = ap to_i32 (get_le-put_le 4 (to_u32 v) (to_u32_bound v)) ∙ to_i32-to_u32 v h

footer_fields-footer_serialize :
    (f : FileFooter) → IsFooter f → footer_fields (footer_serialize f) ≡ f
unfolding footer_fields footer_serialize
footer_fields-footer_serialize f h = λ i. record {
  column_metadata_offset = int64_field _ h.column_metadata_offset i;
  column_metadata_offset_table_offset = int64_field _ h.column_metadata_offset_table_offset i;
  global_buffers_offset_table_offset = int64_field _ h.global_buffers_offset_table_offset i;
  num_global_buffers = int32_field _ h.num_global_buffers i;
  num_columns = int32_field _ h.num_columns i;
  major_version = get_le-put_le 2 f.major_version h.major_version i;
  minor_version = get_le-put_le 2 f.minor_version h.minor_version i;
  magic = take_all 4 f.magic (omega (arith, h.magic)) i;
}

-- A footer whose fields hold values of their types, with four magic bytes, is deserialised whole
-- once it was serialised if the magic bytes are "LANC", and refused as `bad_magic` if not.
pub deserialize_footer-footer_serialize :
    (f : FileFooter)
    → IsFooter f
    → deserialize_footer (footer_serialize f)
      ≡ (if beq f.magic magic_bytes then ok f else err bad_magic)
unfolding deserialize_footer
deserialize_footer-footer_serialize f h =
    rw (length-footer_serialize f h.magic, footer_fields-footer_serialize f h)

size_enough : (file tail : Bytes) (n : ℕ) → length tail ≡ n → ltb (length (file ++ tail)) n ≡ false
size_enough file tail n h = le→not_ltb _ _ (omega (arith, length-append file tail))

-- What `io.ReaderAt` documents of a reader of these bytes none of whose calls fails: a buffer that is
-- within the bytes is filled, and where it ends with them the error may be nil or `io.EOF`.
pub record ReadsAt (r : ReaderAt) (bytes : Bytes) : Type 0 where
  pub full :
      (offset n : ℕ) → offset + n ≤ length bytes → (r offset n).0 ≡ take n (drop offset bytes)
  pub at_end :
      (offset n : ℕ)
      → offset + n ≡ length bytes
      → ((r offset n).1 ≡ none) ⊎ ((r offset n).1 ≡ some eof)

filled-none : (p : Bytes × Option Error) → p.1 ≡ none → filled p ≡ ok p.0
filled-none (buf, none) h = refl
filled-none (buf, some why) h = cc

filled-some : (p : Bytes × Option Error) (why : Error) → p.1 ≡ some why → filled p ≡ err why
filled-some (buf, none) why h = cc
filled-some (buf, some e) why h = cc

last_bytes :
    (r : ReaderAt) (file tail : Bytes)
    → ReadsAt r (file ++ tail)
    → (r (length file) (length tail)).0 ≡ tail
last_bytes r file tail law =
    law.full (length file) (length tail) (omega (arith, length-append file tail))
    ∙ rw (drop-append file tail) (take_all (length tail) tail (omega arith))

-- A footer whose fields hold values of their types and whose magic number is "LANC" stands at the
-- end of a file, whatever is before it; the size that is given is the file's, and the reader keeps
-- the contract of `io.ReaderAt` and does not fail. Then either the reader's `ReadAt` of the last 40
-- bytes returns no error and `ReadFooter` gives the footer back, or it returns `io.EOF` with the
-- full buffer, as the contract allows, and `ReadFooter` fails with it.
pub read_footer-append :
    (r : ReaderAt) (f : FileFooter) (file : Bytes)
    → IsFooter f
    → f.magic ≡ magic_bytes
    → ReadsAt r (file ++ footer_serialize f)
    → (((r (length file) footer_size).1 ≡ none)
        × (read_footer r (pos (length (file ++ footer_serialize f))) ≡ ok f))
      ⊎ (((r (length file) footer_size).1 ≡ some eof)
          × (read_footer r (pos (length (file ++ footer_serialize f))) ≡ err eof))
unfolding read_footer
read_footer-append r f file h m law =
    let l = length-footer_serialize f h.magic in
    let start : length (file ++ footer_serialize f) - footer_size ≡ length file =
      omega (arith, length-append file (footer_serialize f)) in
    let buf : (r (length file) footer_size).0 ≡ footer_serialize f =
      rw (← l) (last_bytes r file (footer_serialize f) law) in
    let fits = size_enough file (footer_serialize f) footer_size l in
    elim (law.at_end (length file) footer_size
      (omega (arith, length-append file (footer_serialize f)))) [
        | inl good ↦ inl (
          good,
          rw (
            fits,
            start,
            filled-none (r (length file) footer_size) good,
            buf,
            deserialize_footer-footer_serialize f h,
            (beq_iff f.magic magic_bytes).1 m,
          ),
        )
        | inr ends ↦
            inr (ends, rw (fits, start, filled-some (r (length file) footer_size) eof ends))
      ]
