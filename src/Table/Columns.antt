-- ===== src/Table/Columns.antt =====
-- What `AddColumn` and `DropColumn` of table/table.go do to a schema.
pub mod Fresh
use golance_db.Prelude.{
  ℕ, ◌≡◌, ◌≢◌, refl, ap, sym, ◌∙◌, Bool, true, false, not, List, [], ◌∷◌, ◌++◌, Option, none, some,
  if◌then◌else◌, All, All_imp, Bool-cases, inl, inr, arith,
}
use golance_db.Prelude.Int.{
  ℤ, pos, negsuc, ltb_ℤ, eqb_ℤ, add_i32, ◌≤ℤ◌, ◌+ℤ◌, to_i32, to_u32, IsInt32, eqb_ℤ→eq, int_laws,
  to_i32-to_u32,
}
use golance_db.Bytes.{Bytes, beq}
use golance_db.Table.Types.{
  Field, Schema, id_of, name_of, with_id, find_field, field_by_id, field_by_name, has_field,
}

-- The loop that takes the greatest id, from 0 on
unfoldable pub max_id : ℤ → List Field → ℤ
max_id best [] = best
max_id best (f ∷ fs) = max_id (if ltb_ℤ best (id_of f) then id_of f else best) fs

-- `newSchema` of `AddColumn`
unfoldable pub extended_schema : Field → Schema → Schema
unfolding max_id
extended_schema new s = record {
  fields = s.fields ++ with_id (add_i32 (max_id (pos 0) s.fields) (pos 1)) new ∷ [];
}

-- The loop of `DropColumn`
unfoldable pub without_name : Bytes → List Field → List Field
without_name name [] = []
without_name name (f ∷ fs) =
    let rest = without_name name fs in if beq (name_of f) name then rest else f ∷ rest

unfoldable pub reduced_schema : Bytes → Schema → Schema
unfolding without_name
reduced_schema name s = record { fields = without_name name s.fields }
