-- ===== src/Table/Types.antt =====
-- The records of table/schema.go, table/fragment.go and table/manifest.go, and their methods.
use golance_db.Prelude.{
  Bool, true, false, List, [], ◌∷◌, ◌++◌, Option, none, some, map, if◌then◌else◌,
}
use golance_db.Prelude.Int.{sub_i64, ℤ, pos, ◌+ℤ◌, eqb_ℤ}
use golance_db.Bytes.{Bytes, beq}
use golance_db.Text.{FilePath}
use golance_db.Encode.Types.{DataType}

-- `Field`; a field can have child fields.
mutual
  pub data Field : Type 0 where
    field : ℤ → Bytes → DataType → Bool → ℤ → Children → List (Bytes × Bytes) → Field

  pub data Children : Type 0 where
    nil : Children
    cons : Field → Children → Children

abbrev pub id_of : Field → ℤ
id_of (field id name type nullable dimension children metadata) = id

abbrev pub name_of : Field → Bytes
name_of (field id name type nullable dimension children metadata) = name

abbrev pub type_of : Field → DataType
type_of (field id name type nullable dimension children metadata) = type

abbrev pub dimension_of : Field → ℤ
dimension_of (field id name type nullable dimension children metadata) = dimension

abbrev pub with_id : ℤ → Field → Field
with_id id (field _ name type nullable dimension children metadata) =
    field id name type nullable dimension children metadata

pub record Schema : Type 0 where
  pub fields : List Field

number_fields : ℤ → List Field → List Field
number_fields i [] = []
number_fields i (f ∷ fs) = with_id i f ∷ number_fields (i +ℤ pos 1) fs

-- `NewSchema`; a schema has fewer than 2^31 fields, so the int32 counter does not wrap.
unfoldable pub new_schema : List Field → Schema
unfolding number_fields
new_schema fields = record { fields = number_fields (pos 0) fields }

unfoldable pub find_field : (Field → Bool) → List Field → Option Field
find_field test [] = none
find_field test (f ∷ fs) = if test f then some f else find_field test fs

-- `FieldByName`, `FieldByID`, `HasField`, `NumFields`
unfoldable pub field_by_name : Schema → Bytes → Option Field
field_by_name s name = find_field (λ f. beq (name_of f) name) s.fields

unfoldable pub field_by_id : Schema → ℤ → Option Field
field_by_id s id = find_field (λ f. eqb_ℤ (id_of f) id) s.fields

unfoldable pub has_field : Schema → Bytes → Bool
has_field s name = elim (field_by_name s name) [ none ↦ false | some _ ↦ true ]

pub record DataFile : Type 0 where
  pub path : FilePath
  pub column_id : ℤ
  pub num_rows : ℤ
  pub file_size : ℤ

pub record DeletionFile : Type 0 where
  pub path : FilePath
  pub num_rows : ℤ

pub record Fragment : Type 0 where
  pub id : ℤ
  pub num_rows : ℤ
  pub data_files : List DataFile
  pub deletion_file : Option DeletionFile
  pub physical_rows : ℤ

-- `NewFragment`, `AddDataFile`, `SetDeletionFile`, `ColumnIDs`
unfoldable pub new_fragment : ℤ → Fragment
new_fragment id = record {
  id = id;
  num_rows = pos 0;
  data_files = [];
  deletion_file = none;
  physical_rows = pos 0;
}

unfoldable pub add_data_file : DataFile → Fragment → Fragment
add_data_file df f = record f { data_files = f.data_files ++ df ∷ [] }

unfoldable pub set_deletion_file : Option DeletionFile → Fragment → Fragment
set_deletion_file none f = record f { deletion_file = none; physical_rows = f.num_rows }
set_deletion_file (some df) f = record f {
  deletion_file = some df;
  physical_rows = sub_i64 f.num_rows df.num_rows;
}

unfoldable pub column_ids : Fragment → List ℤ
column_ids f = map (λ df. df.column_id) f.data_files

pub record Manifest : Type 0 where
  pub version : ℤ
  pub timestamp : ℤ
  pub schema : Schema
  pub fragments : List Fragment
  pub index_ids : List Bytes
  pub max_fragment_id : ℤ
  pub tags : List (Bytes × Bytes)

unfoldable pub new_manifest : ℤ → Schema → Manifest
new_manifest version schema = record {
  version = version;
  timestamp = pos 0;
  schema = schema;
  fragments = [];
  index_ids = [];
  max_fragment_id = pos 0;
  tags = [];
}
