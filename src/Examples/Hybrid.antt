-- ===== src/Examples/Hybrid.antt =====
-- The filter and the hybrid search at a small table.
use golance_db.Prelude.{
  ℕ, suc, zero, ◌+◌, ◌-◌, ◌*◌, ◌/◌, ◌^◌, ◌≡◌, ◌≤◌, ◌&&◌, ◌||◌, refl, List, [], ◌∷◌, ◌++◌, drop,
  length, Bool, true, false, Option, none, some, Result, ok, err, read_failed, arith, Perm, concat,
  replicate, if◌then◌else◌,
}
use golance_db.Prelude.Int.{ℤ, pos, negsuc}
use golance_db.Prelude.Sort.{Sorter, insertion_sorter}
use golance_db.Bytes.{Bytes, beq, put_le}
use golance_db.Text.{FilePath, base_name}
use golance_db.Float.{Arithmetic}
use golance_db.Distance.{SearchResult}
use golance_db.Encode.Types.{DataType, CompressionType}
use golance_db.Encode.Compression.{Codec}
use golance_db.Encode.MiniBlock.{new_mini_block_encoder}
use golance_db.Table.Types.{
  Field, Children, Schema, Manifest, Fragment, DataFile, new_schema, new_manifest, new_fragment,
}
use golance_db.Query.Reader.{FragmentReader, new_fragment_reader}
use golance_db.Query.Filter.{OpType, int64, one, ScalarFilter}
use golance_db.Query.Filter.{filter_fragments}
use golance_db.Query.Filter.Filtered.{HasHit, filter_fragments-HasHit}
use golance_db.Prelude.{get_elem?}
use golance_db.Query.Filter.Operators.{condition}
use golance_db.Query.Hybrid.{
  HybridSearch, SearchStrategy, filter_first_search, search_first_search, search_with_strategy,
}
use golance_db.Query.Hybrid.Equivalence.{filter_first-search_first}
use golance_db.Query.Hybrid.Limit.{search_with_strategy_bound}
use golance_db.Examples.Query.{small_floats, no_codec, sorter, vector_query, age}

-- A store of two files, each of a page without compression: the vectors (3,1), (1,1) and the
-- ages 20, 30.
abbrev page : ℕ → Bytes → Bytes
page n body = put_le 4 1 ++ (put_le 4 1 ++ (put_le 4 4096 ++ (put_le 4 n ++ body)))

abbrev vectors_file : Bytes
vectors_file = page 16 (put_le 4 3 ++ (put_le 4 1 ++ (put_le 4 1 ++ put_le 4 1)))

abbrev ages_file : Bytes
ages_file = page 16 (put_le 8 20 ++ put_le 8 30)

abbrev read_file : FilePath → ℤ → ℤ → Result Bytes
read_file path offset size =
    if beq (base_name path) (118 ∷ []) then ok vectors_file else ok ages_file

abbrev schema : Schema
schema = record {
  fields =
      Field.field (pos 0) (118 ∷ []) DataType.fixed_size_list false (pos 2) Children.nil []
      ∷ Field.field (pos 1) age DataType.int64 false (pos 0) Children.nil []
      ∷ [];
}

abbrev fragment : Fragment
fragment = record {
  id = pos 1;
  num_rows = pos 2;
  data_files =
      record { path = (118 ∷ []) ∷ []; column_id = pos 0; num_rows = pos 2; file_size = pos 32 }
      ∷ record { path = age ∷ []; column_id = pos 1; num_rows = pos 2; file_size = pos 32 }
      ∷ [];
  deletion_file = none;
  physical_rows = pos 2;
}

abbrev manifest : Manifest
manifest = record {
  version = pos 1;
  timestamp = pos 0;
  schema = schema;
  fragments = fragment ∷ [];
  index_ids = [];
  max_fragment_id = pos 1;
  tags = [];
}

abbrev reader : FragmentReader
reader = new_fragment_reader read_file schema CompressionType.none

abbrev hybrid : HybridSearch
hybrid = record {
  brute_force = record { reader = reader; schema = schema };
  scan_filter = record { reader = reader; schema = schema };
}

abbrev over_25 : ScalarFilter
over_25 = record { conditions = condition age OpType.gt (one (int64 (pos 25))) ∷ [] }

abbrev found : List SearchResult
found = record { row_id = pos 1; score = 8 } ∷ []

search_first_run :
    search_first_search small_floats sorter
      (λ n. false)
      no_codec
      hybrid
      manifest
      vector_query
      over_25
      (pos 0)
    ≡ ok found
unfolding search_first_search golance_db.Table.Types.find_field golance_db.Bytes.read_i32
    golance_db.Bytes.read_full golance_db.Encode.MiniBlock.read_blocks golance_db.Bytes.read_sized
    golance_db.Encode.Compression.decompress golance_db.Encode.Serialize.deserialize
    golance_db.Encode.Serialize.deserialize_float32 golance_db.Encode.Serialize.get_words
    golance_db.Prelude.Sort.insertion_sort golance_db.Float.f64_lt golance_db.Float.rank
    golance_db.Encode.Serialize.deserialize_int64 golance_db.Prelude.Int.◌+ℤ◌
search_first_run = refl

filter_first-search_first_example :
    (results : List SearchResult) × (filter_first_search small_floats sorter
        (λ n. false)
        no_codec
        hybrid
        manifest
        vector_query
        over_25
        (pos 0)
      ≡ ok results)
    × Perm results found
filter_first-search_first_example =
    filter_first-search_first small_floats sorter (λ n. false) no_codec hybrid manifest vector_query
      over_25 (pos 0) found (λ n. refl) refl search_first_run

strategy_run :
    search_with_strategy small_floats sorter
      (λ n. false)
      no_codec
      hybrid
      manifest
      (record {
        vector = some vector_query;
        scalar_filter = some over_25;
        limit = pos 1;
        columns = [];
        timeout = pos 0;
      })
      SearchStrategy.search_first
    ≡ ok found
unfolding search_with_strategy golance_db.Table.Types.find_field golance_db.Bytes.read_i32
    golance_db.Bytes.read_full golance_db.Encode.MiniBlock.read_blocks golance_db.Bytes.read_sized
    golance_db.Encode.Compression.decompress golance_db.Encode.Serialize.deserialize
    golance_db.Encode.Serialize.deserialize_float32 golance_db.Encode.Serialize.get_words
    golance_db.Prelude.Sort.insertion_sort golance_db.Float.f64_lt golance_db.Float.rank
    golance_db.Encode.Serialize.deserialize_int64 golance_db.Prelude.Int.◌+ℤ◌
strategy_run = refl

search_with_strategy_bound_example : length found ≤ 1
search_with_strategy_bound_example =
    search_with_strategy_bound small_floats sorter (λ n. false) no_codec hybrid manifest
      (some vector_query) (some over_25) 0 [] (pos 0) SearchStrategy.search_first found strategy_run

filter_run :
    filter_fragments small_floats no_codec hybrid.scan_filter
      (λ n. false)
      over_25.conditions
      0
      (pos 0)
      (fragment ∷ [])
    ≡ ok (pos 1 ∷ [])
unfolding filter_fragments golance_db.Table.Types.find_field golance_db.Bytes.read_i32
    golance_db.Bytes.read_full golance_db.Encode.MiniBlock.read_blocks golance_db.Bytes.read_sized
    golance_db.Encode.Compression.decompress golance_db.Encode.Serialize.deserialize
    golance_db.Encode.Serialize.deserialize_float32 golance_db.Encode.Serialize.get_words
    golance_db.Prelude.Sort.insertion_sort golance_db.Float.f64_lt golance_db.Float.rank
    golance_db.Encode.Serialize.deserialize_int64 golance_db.Prelude.Int.◌+ℤ◌
filter_run = refl

filter_fragments-HasHit_example :
    ((j : ℕ) (id : ℤ)
      → get_elem? (pos 1 ∷ []) j ≡ some id
      → HasHit small_floats no_codec hybrid.scan_filter over_25.conditions
          (fragment ∷ [])
          (pos 0)
          id)
    × ((id : ℤ)
        → HasHit small_floats no_codec hybrid.scan_filter over_25.conditions
            (fragment ∷ [])
            (pos 0)
            id
        → (j : ℕ) × (get_elem? (pos 1 ∷ []) j ≡ some id))
filter_fragments-HasHit_example =
    filter_fragments-HasHit small_floats no_codec hybrid.scan_filter over_25.conditions (λ n. false)
      0 (pos 0) (fragment ∷ []) (pos 1 ∷ []) filter_run
