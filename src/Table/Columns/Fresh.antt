-- ===== src/Table/Columns/Fresh.antt =====
-- The column that `AddColumn` of table/table.go adds has an id and a name of its own.
use golance_db.Prelude.{
  ◌+◌, ◌<◌, ◌^◌, ◌≡◌, ◌≢◌, refl, ap, ◌∙◌, Bool, false, List, [], ◌∷◌, ◌++◌, none, some,
  if◌then◌else◌, All, All_imp, Bool-cases, inl, inr, arith, append_nil,
}
use golance_db.Prelude.Int.{
  ℤ, pos, negsuc, ltb_ℤ, eqb_ℤ, add_i32, ◌≤ℤ◌, ◌+ℤ◌, IsInt32, eqb_ℤ→eq, eqb_ℤ_refl, to_i32-to_u32,
  pos_part, neg_part, int_laws,
}
use golance_db.Bytes.{Bytes, beq, beq_iff}
use golance_db.Table.Types.{
  Field, Schema, id_of, name_of, with_id, find_field, field_by_id, field_by_name, has_field,
}
use golance_db.Table.Columns.{max_id, extended_schema, without_name, reduced_schema}

max_id_bound :
    (best : ℤ) (fs : List Field)
    → (best ≤ℤ max_id best fs) × All (λ f. id_of f ≤ℤ max_id best fs) fs
unfolding max_id
max_id_bound best [] = (omega arith, tt)
max_id_bound best (f ∷ fs) =
    let (low, rest) = max_id_bound (if ltb_ℤ best (id_of f) then id_of f else best) fs in
    (ground arith, (ground arith, rest))

-- The id that the new column gets
abbrev pub next_id : Schema → ℤ
next_id s = add_i32 (max_id (pos 0) s.fields) (pos 1)

plus_one_fits : (z : ℤ) → pos 0 ≤ℤ z → pos_part z + 1 < 2 ^ 31 → IsInt32 (z +ℤ pos 1)
unfolding ◌+ℤ◌
plus_one_fits (pos n) le h = ground arith
plus_one_fits (negsuc n) le h = absurd (omega arith)

next_id-plus_one :
    (s : Schema)
    → pos_part (max_id (pos 0) s.fields) + 1 < 2 ^ 31
    → next_id s ≡ max_id (pos 0) s.fields +ℤ pos 1
next_id-plus_one s h =
    to_i32-to_u32 (max_id (pos 0) s.fields +ℤ pos 1)
      (plus_one_fits (max_id (pos 0) s.fields) (max_id_bound (pos 0) s.fields).0 h)

find-append_found :
    (test : Field → Bool) (fs gs : List Field) (f : Field)
    → find_field test fs ≡ some f
    → find_field test (fs ++ gs) ≡ some f
unfolding find_field
find-append_found test [] gs f h = cc
find-append_found test (x ∷ fs) gs f h = ground (arith, find-append_found test fs gs f)

find-append_missing :
    (test : Field → Bool) (fs gs : List Field)
    → find_field test fs ≡ none
    → find_field test (fs ++ gs) ≡ find_field test gs
unfolding find_field
find-append_missing test [] gs h = refl
find-append_missing test (x ∷ fs) gs h = ground (arith, find-append_missing test fs gs)

find_none :
    (test : Field → Bool) (fs : List Field)
    → All (λ f. test f ≡ false) fs
    → find_field test fs ≡ none
unfolding find_field
find_none test [] h = refl
find_none test (f ∷ fs) h = rw h.0 (find_none test fs h.1)

above_differs : (a b m : ℤ) → b ≡ m +ℤ pos 1 → a ≤ℤ m → eqb_ℤ a b ≡ false
above_differs a b m e h = elim (Bool-cases (eqb_ℤ a b)) [
  | inl same ↦ absurd (
      omega (
        int_laws,
        ap pos_part (eqb_ℤ→eq a b same),
        ap neg_part (eqb_ℤ→eq a b same),
        ap pos_part e,
        ap neg_part e,
      ))
  | inr differ ↦ differ
]

found_alone :
    (id : ℤ) (new : Field)
    → find_field (λ f. eqb_ℤ (id_of f) id) (with_id id new ∷ []) ≡ some (with_id id new)
unfolding find_field
found_alone id (Field.field old name type nullable dimension children metadata) =
    rw (eqb_ℤ_refl id) refl

-- Where the greatest id of the schema is below the last int32, the new column is found by its id,
-- no column of the schema had that id, and every column that was found by id still is.
pub field_by_id-extended_schema :
    (new : Field) (s : Schema)
    → pos_part (max_id (pos 0) s.fields) + 1 < 2 ^ 31
    → (field_by_id (extended_schema new s) (next_id s) ≡ some (with_id (next_id s) new))
      × (field_by_id s (next_id s) ≡ none)
      × ((id : ℤ) (f : Field)
          → field_by_id s id ≡ some f
          → field_by_id (extended_schema new s) id ≡ some f)
unfolding field_by_id extended_schema
field_by_id-extended_schema new s h =
    let fresh : find_field (λ f. eqb_ℤ (id_of f) (next_id s)) s.fields ≡ none =
      find_none _ s.fields (
        All_imp (λ f. id_of f ≤ℤ max_id (pos 0) s.fields) _
          (λ f le. above_differs (id_of f) (next_id s) _ (next_id-plus_one s h) le) s.fields
          (max_id_bound (pos 0) s.fields).1) in
    (
      find-append_missing (λ f. eqb_ℤ (id_of f) (next_id s)) s.fields _ fresh
          ∙ found_alone (next_id s) new,
      fresh,
      λ id f e. find-append_found (λ f. eqb_ℤ (id_of f) id) s.fields _ f e,
    )

without_kept :
    (name : Bytes) (fs gs : List Field)
    → find_field (λ f. beq (name_of f) name) fs ≡ none
    → without_name name (fs ++ gs) ≡ fs ++ without_name name gs
unfolding find_field without_name
without_kept name [] gs h = refl
without_kept name (f ∷ fs) gs h = elim (Bool-cases (beq (name_of f) name)) [
  | inl e ↦ absurd (ground arith)
  | inr e ↦ rw e (ap (◌∷◌ f) (without_kept name fs gs (rw e at h)))
]

has_field_none :
    (s : Schema) (name : Bytes) → has_field s name ≡ false → field_by_name s name ≡ none
unfolding has_field
has_field_none s name h = ground arith

dropped_alone : (id : ℤ) (new : Field) → without_name (name_of new) (with_id id new ∷ []) ≡ []
unfolding without_name
dropped_alone id (Field.field old name type nullable dimension children metadata) =
    rw ((beq_iff name name).1 refl) refl

find-without_self :
    (name : Bytes) (fs : List Field)
    → find_field (λ f. beq (name_of f) name) (without_name name fs) ≡ none
unfolding find_field without_name
find-without_self name [] = refl
find-without_self name (f ∷ fs) = elim (Bool-cases (beq (name_of f) name)) [
  | inl e ↦ rw e (find-without_self name fs)
  | inr e ↦ rw e (rw e (find-without_self name fs))
]

find-without_other :
    (name other : Bytes) (fs : List Field)
    → other ≢ name
    → find_field (λ f. beq (name_of f) other) (without_name name fs)
      ≡ find_field (λ f. beq (name_of f) other) fs
unfolding find_field without_name
find-without_other name other [] h = refl
find-without_other name other (f ∷ fs) h =
    ground (
      arith,
      beq_iff (name_of f) name,
      beq_iff (name_of f) other,
      find-without_other name other fs h,
    )

-- Dropping the column that was just added, under a name that the schema did not have, gives the
-- schema back.
pub reduced_schema-extended_schema :
    (new : Field) (s : Schema)
    → has_field s (name_of new) ≡ false
    → reduced_schema (name_of new) (extended_schema new s) ≡ s
unfolding reduced_schema extended_schema field_by_name
reduced_schema-extended_schema new s h =
    ap (λ (fs : List Field). record { fields = fs })
      (without_kept (name_of new) s.fields _ (has_field_none s (name_of new) h)
        ∙ ap (λ l. s.fields ++ l) (dropped_alone (next_id s) new)
        ∙ append_nil s.fields)

-- After a column is dropped no column has its name, and a column of another name is found as before.
pub field_by_name-reduced_schema :
    (name other : Bytes) (s : Schema)
    → (field_by_name (reduced_schema name s) name ≡ none)
      × (other ≢ name → field_by_name (reduced_schema name s) other ≡ field_by_name s other)
unfolding field_by_name reduced_schema
field_by_name-reduced_schema name other s =
    (find-without_self name s.fields, λ h. find-without_other name other s.fields h)
