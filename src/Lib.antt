-- ===== src/Lib.antt =====
-- GolanceDB: a columnar table format for vectors, its encodings, its files, its versions, its
-- queries and its indexes.
--
-- The program stores a table as fragments of column files. A column is serialised, cut into blocks
-- and compressed (encode); a file ends in a footer, buffers of files are kept in an LRU pool, and
-- all files are reached through the interface `Store` (storage); a manifest lists the fragments of a
-- version and stands in a file of its own, and the version manager caches manifests; inserting a
-- batch writes a fragment and then a manifest (table); a query reads the columns of a manifest's
-- fragments, scores vectors (distance) and filters rows (query); an index keeps vectors in memory,
-- all of them or by partitions, and answers for the nearest ones (index).
--
-- The files and the code:
-- - Prelude: shared names, Boolean tests, lists, integers, association lists, sorting. `Result` is
--   what a Go function returns: a value, an error or a panic; an error is known by the check that
--   made it. `Io` (Stateful) is a call that changes a state and returns a `Result`. `Sorter` stands
--   for `sort.Slice`, which is known by its documentation: a permutation, in ascending order where
--   the test is a strict weak order; insertion sort is an instance.
-- - Bytes: byte slices, little-endian words, and the reads of a `bytes.Reader`.
-- - Text: decimal numbers as `strconv` prints and parses them, file names, and paths. A path is the
--   list of its parts, as `filepath.Join` and `filepath.Base` see it; `..` and `/` in a name are
--   left out.
-- - Float: float32 and float64 as bit patterns. Comparison is that of IEEE 754, computed from the
--   bits; arithmetic and conversion are a parameter.
-- - Encode: encode/types.go, encode/compression.go (Compression; zstd and lz4 are a parameter with
--   the law that decoding undoes encoding), encode/miniblock.go (Serialize: the serialisers by
--   data type; MiniBlock: `Encode`, `Decode`, `splitBlocks`), encode/constant.go (Constant).
-- - Storage: storage/file_footer.go (FileFooter; the `io.ReaderAt` is a parameter with its documented
--   contract, by which `io.EOF` may come with the last bytes), storage/buffer_pool.go (BufferPool; the pool's
--   View is the ideal cache that it is compared with), storage/object_store.go (Store: the
--   interface as a record of operations, and what it promises of the files) and
--   storage/local_fs.go (LocalFs; the calls of package os are a parameter, with what their
--   documentation says of them as laws).
-- - Distance: distance/types.go and distance/distance.go.
-- - Table: the records of table/schema.go, table/fragment.go and table/manifest.go (Types),
--   table/version_manager.go (VersionManager), table/manifest_store.go (ManifestStore: the reads;
--   Updates: `Write`, `Commit` and `DeleteVersion`), table/fragment_writer.go (FragmentWriter),
--   the goroutine of table/async_writer.go (AsyncWriter: what it accumulates, its flush, and the
--   cases of its loop as steps; Merge: the merging of batches), and table/table.go (Columns: the
--   schemas that `AddColumn` and `DropColumn` make; Operations: `Open` and the reads; Changes:
--   `Create`, `BatchInsert`, `AddColumn`, `DropColumn`). The JSON form of a manifest and the clock
--   are parameters.
-- - Query: table/fragment_reader.go (Reader), query/scan_filter.go (Filter), query/brute_force.go
--   and query/reranker.go (Search), query/hybrid_search.go (Hybrid), with the types of
--   query/types.go in the file that uses them. `Store.Read` is a parameter, and so are the answers
--   of `ctx.Err()`, which the loops ask by a count.
-- - Index: index/types.go (Types), index/flat.go (Flat), index/ivf_flat.go (IvfFlat: `Search`;
--   Build: k-means), and `Save` and `Load` of both (Snapshot, and Saved below each). Float32
--   arithmetic, `math/rand` and the JSON form of a snapshot are parameters.
-- - Config: config/config.go. Its JSON form and the splitting of a string into the parts of a path are
--   parameters.
-- - Examples: the theorems at concrete inputs, on a store in memory.
--
-- Methods that hold a lock from first to last are one step on the state. Where a call of the store
-- or of package os fails it may have changed the file that it is about in any way. A Go map that is
-- ranged over is a list of pairs with distinct keys, in the order in which the loop meets them.
-- Loops are structural, or run on fuel: the rounds of `evict` in both caches are bounded by the
-- number of entries, since each removes one; those of `splitBlocks` by the number of bytes, and
-- those of the text loops by the number of bytes too, since each takes one at least; k-means makes
-- at most 25 rounds, as in the code. Wrap-around of row ids and of byte counts at 2^63 is not
-- modelled; the int32 lengths in a page, the fields of a footer, the numbers of fragments, versions
-- and columns, the sums of row counts, the physical rows of a fragment, and the int32 positions in a
-- partition are.
--
-- Not modelled: `LocalFS.OpenWrite`, which nothing calls; `Start`, `Write`, `Close` and
-- the channels of table/async_writer.go; api and examples; the text and the wrapping of errors.
pub mod Prelude
pub mod Bytes
pub mod Text
pub mod Float
pub mod Encode
pub mod Storage
pub mod Distance
pub mod Table
pub mod Query
pub mod Index
pub mod Config
pub mod Examples
