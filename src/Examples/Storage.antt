-- ===== src/Examples/Storage.antt =====
-- storage/buffer_pool.go and storage/file_footer.go at concrete inputs.
use golance_db.Prelude.{
  ◌≡◌, refl, List, [], ◌∷◌, ◌++◌, some, ok, err, length, bad_magic, arith, eof, take, drop, ltb,
  if◌then◌else◌, ◌+◌, none, ◌⊎◌, inl, inr, le→not_ltb,
}
use golance_db.Prelude.Int.{pos, negsuc, ◌≤ℤ◌}
use golance_db.Bytes.{Bytes}
use golance_db.Storage.FileFooter.{
  FileFooter, footer_serialize, deserialize_footer, read_footer, magic_bytes, ReaderAt, footer_size,
}
use golance_db.Storage.FileFooter.RoundTrip.{
  IsFooter, ReadsAt, deserialize_footer-footer_serialize, read_footer-append,
}
use golance_db.Storage.BufferPool.{BufferPool, new_buffer_pool, get, put}
use golance_db.Storage.BufferPool.View.{total}
use golance_db.Storage.BufferPool.Evict.{Represents}
use golance_db.Storage.BufferPool.Refines.{new_buffer_pool-Represents}
use golance_db.Storage.BufferPool.Runs.{Call, run, view_run, run-refines, run_bounded, get-put}

abbrev key_a : Bytes
key_a = 97 ∷ []

abbrev key_b : Bytes
key_b = 98 ∷ []

-- Room for five bytes: the second write takes the place of the first, but for the read.
abbrev calls : List Call
calls =
    Call.write key_a (1 ∷ 2 ∷ [])
    ∷ Call.write key_b (3 ∷ 4 ∷ 5 ∷ [])
    ∷ Call.read key_a
    ∷ Call.write (99 ∷ []) (6 ∷ [])
    ∷ Call.read key_b
    ∷ Call.read key_a
    ∷ Call.forget key_a
    ∷ Call.read key_a
    ∷ []

abbrev small : BufferPool
small = new_buffer_pool (pos 5)

run-refines_example :
    ((run calls small).0 ≡ (view_run (pos 5) calls []).0)
    × Represents (pos 5) (run calls small).1 (view_run (pos 5) calls []).1
run-refines_example = run-refines calls small [] (new_buffer_pool-Represents (pos 5))

run_bounded_example :
    ((run calls small).1.used ≡ pos (total (view_run (pos 5) calls []).1))
    × ((run calls small).1.used ≤ℤ pos 5)
run_bounded_example = run_bounded 5 calls

get-put_example : (get key_a (put key_a (1 ∷ 2 ∷ []) small)).0 ≡ some (1 ∷ 2 ∷ [])
get-put_example = get-put small [] key_a (1 ∷ 2 ∷ []) (new_buffer_pool-Represents (pos 5)) refl

abbrev a_footer : FileFooter
a_footer = record {
  column_metadata_offset = pos 4096;
  column_metadata_offset_table_offset = pos 70000;
  global_buffers_offset_table_offset = negsuc 0;
  num_global_buffers = pos 2;
  num_columns = pos 3;
  major_version = 2;
  minor_version = 1;
  magic = magic_bytes;
}

abbrev bad_footer : FileFooter
bad_footer = record a_footer { magic = 76 ∷ 65 ∷ 78 ∷ 68 ∷ [] }

a_footer-IsFooter : IsFooter a_footer
a_footer-IsFooter = record {
  column_metadata_offset = omega arith;
  column_metadata_offset_table_offset = omega arith;
  global_buffers_offset_table_offset = omega arith;
  num_global_buffers = omega arith;
  num_columns = omega arith;
  major_version = omega arith;
  minor_version = omega arith;
  magic = refl;
}

bad_footer-IsFooter : IsFooter bad_footer
bad_footer-IsFooter = record {
  column_metadata_offset = omega arith;
  column_metadata_offset_table_offset = omega arith;
  global_buffers_offset_table_offset = omega arith;
  num_global_buffers = omega arith;
  num_columns = omega arith;
  major_version = omega arith;
  minor_version = omega arith;
  magic = refl;
}

deserialize_footer-footer_serialize_example :
    deserialize_footer (footer_serialize bad_footer) ≡ err bad_magic
deserialize_footer-footer_serialize_example =
    deserialize_footer-footer_serialize bad_footer bad_footer-IsFooter

-- A reader that returns `io.EOF` with the last bytes, and one that does so only beyond them
abbrev eager : Bytes → ReaderAt
eager bytes offset n =
    (take n (drop offset bytes), if ltb (offset + n) (length bytes) then none else some eof)

eager-ReadsAt : (bytes : Bytes) → ReadsAt (eager bytes) bytes
eager-ReadsAt bytes = record {
  full = λ offset n h. refl;
  at_end = λ offset n h. inr (rw (le→not_ltb (offset + n) (length bytes) (omega arith)) refl);
}

abbrev lazy : Bytes → ReaderAt
lazy bytes offset n =
    (take n (drop offset bytes), if ltb (length bytes) (offset + n) then some eof else none)

lazy-ReadsAt : (bytes : Bytes) → ReadsAt (lazy bytes) bytes
lazy-ReadsAt bytes = record {
  full = λ offset n h. refl;
  at_end = λ offset n h. inl (rw (le→not_ltb (length bytes) (offset + n) (omega arith)) refl);
}

abbrev footed : Bytes
footed = (1 ∷ 2 ∷ 3 ∷ []) ++ footer_serialize a_footer

read_footer-append_example :
    (((lazy footed 3 footer_size).1 ≡ none)
      × (read_footer (lazy footed) (pos (length footed)) ≡ ok a_footer))
    ⊎ (((lazy footed 3 footer_size).1 ≡ some eof)
        × (read_footer (lazy footed) (pos (length footed)) ≡ err eof))
read_footer-append_example =
    read_footer-append (lazy footed) a_footer (1 ∷ 2 ∷ 3 ∷ []) a_footer-IsFooter refl
      (lazy-ReadsAt footed)

lazy_run : read_footer (lazy footed) (pos (length footed)) ≡ ok a_footer
unfolding read_footer footer_serialize deserialize_footer
    golance_db.Storage.FileFooter.footer_fields
lazy_run = refl

eager_run : read_footer (eager footed) (pos (length footed)) ≡ err eof
unfolding read_footer footer_serialize
eager_run = refl
