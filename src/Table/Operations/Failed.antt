-- ===== src/Table/Operations/Failed.antt =====
-- What table/table.go leaves where a change fails.
use golance_db.Prelude.{
  ℕ, ◌≡◌, refl, Bool, List, [], ◌∷◌, ◌++◌, Result, ok, err, panic, if◌then◌else◌, field_exists,
  column_not_found,
}
use golance_db.Prelude.Int.{ℤ, ltb_ℤ}
use golance_db.Prelude.Sort.{Sorter}
use golance_db.Prelude.Stateful.{Io, done, modify, with_own, resume}
use golance_db.Bytes.{Bytes}
use golance_db.Encode.Compression.{Codec}
use golance_db.Storage.Store.{Store}
use golance_db.Table.Types.{Field, Schema, Fragment, Manifest, name_of, has_field}
use golance_db.Table.VersionManager.{latest, publish}
use golance_db.Table.ManifestStore.{ManifestJson}
use golance_db.Table.ManifestStore.Updates.{write_manifest}
use golance_db.Table.FragmentWriter.{
  RecordBatch, FragmentWriter, write_batch, finish, new_fragment_writer,
}
use golance_db.Table.Columns.{extended_schema, reduced_schema}
use golance_db.Table.Operations.{Table, versions_path}
use golance_db.Table.Operations.Changes.{
  cached_latest, manifest_of, merged_batch, commit_version, add_column, drop_column, batch_insert,
  next_version_up, next_fragment_up, written,
}

-- The schema and the cache of a table are as they were.
abbrev pub Untouched : Table → Table → Type 0
Untouched t t' = (t'.schema ≡ t.schema) × (t'.version_mgr ≡ t.version_mgr)

module _ {W : Type 0} where
  -- The call succeeded, or the table is as it was but for its counters.
  abbrev pub AllOrNothing : {A : Type 0} → Table → Result A × (W × Table) → Type 0
  AllOrNothing t (ok a, s) = Unit
  AllOrNothing t (err why, s) = Untouched t s.1
  AllOrNothing t (panic, s) = Untouched t s.1

  resume_lift :
      {A B : Type 0} (t : Table) (r : Result A) (next : A → Io (W × Table) B) (s : W × Table)
      → Untouched t s.1
      → ((a : A) → AllOrNothing t (next a s))
      → AllOrNothing t (resume next (r, s))
  resume_lift t (ok a) next s same rest = rest a
  resume_lift t (err why) next s same rest = same
  resume_lift t panic next s same rest = same

  resume_world :
      {A B : Type 0} (t u : Table) (p : Result A × W) (next : A → Io (W × Table) B)
      → Untouched t u
      → ((a : A) (v : W) → AllOrNothing t (next a (v, u)))
      → AllOrNothing t (resume next (with_own u p))
  resume_world t u (ok a, v) next same rest = rest a v
  resume_world t u (err why, v) next same rest = same
  resume_world t u (panic, v) next same rest = same

  resume_writer :
      {B : Type 0} (t : Table) (p : Result (Unit {0}) × (W × FragmentWriter))
      (next : FragmentWriter → Io (W × Table) B)
      → ((fw : FragmentWriter) (v : W) → AllOrNothing t (next fw (v, t)))
      → AllOrNothing t (resume next (written t p))
  resume_writer t (ok u, (v, fw)) next rest = rest fw v
  resume_writer t (err why, (v, fw)) next rest = (refl, refl)
  resume_writer t (panic, (v, fw)) next rest = (refl, refl)

  resume-done :
      {A B : Type 0} (t : Table) (p : Result A × (W × Table)) (b : B)
      → AllOrNothing t p
      → AllOrNothing t (resume (λ _. done b) p)
  resume-done t (ok a, s) b h = tt
  resume-done t (err why, s) b h = h
  resume-done t (panic, s) b h = h

module _ {W : Type 0} (json : ManifestJson) (store : Store W) (sort : Sorter ℤ ltb_ℤ)
    (now : ℤ) where
  commit_version_failed :
      (schema : Schema) (fragments : Manifest → List Fragment) (max_fragment_id : Manifest → ℤ)
      (w : W) (t u : Table)
      → Untouched t u
      → AllOrNothing t (commit_version json store sort now schema fragments max_fragment_id (w, u))
  unfolding commit_version next_version_up
  commit_version_failed schema fragments max_fragment_id w t u same =
      resume_lift t (cached_latest (latest u.version_mgr)) _ (w, u) same
        (λ last.
          resume_world t (next_version_up u)
            (write_manifest store (versions_path u.table_path) json
              (manifest_of u.next_version schema (fragments last) (max_fragment_id last) now) w)
            (λ _. modify (λ t. record t {
              schema = schema;
              version_mgr =
                  publish sort
                    (manifest_of u.next_version schema (fragments last) (max_fragment_id last) now)
                    t.version_mgr;
            }))
            same (λ a v. tt))

  -- Where `AddColumn` does not succeed, the schema and the cache of the table are as they were.
  pub add_column_failed :
      (new : Field) (w : W) (t : Table) → AllOrNothing t (add_column json store sort now new (w, t))
  unfolding add_column
  add_column_failed new w t =
      resume_lift t (if has_field t.schema (name_of new) then err field_exists else ok tt) _ (w, t)
        (refl, refl)
        (λ _.
          commit_version_failed (extended_schema new t.schema) (λ m. m.fragments)
            (λ m. m.max_fragment_id) w t t (refl, refl))

  -- The same for `DropColumn`.
  pub drop_column_failed :
      (name : Bytes) (w : W) (t : Table)
      → AllOrNothing t (drop_column json store sort now name (w, t))
  unfolding drop_column
  drop_column_failed name w t =
      resume_lift t (if has_field t.schema name then ok tt else err column_not_found) _ (w, t)
        (refl, refl)
        (λ _.
          commit_version_failed (reduced_schema name t.schema) (λ m. m.fragments)
            (λ m. m.max_fragment_id) w t t (refl, refl))

  -- Whatever `BatchInsert` is given and however a call of the store or of the codec fails: unless
  -- it succeeds, the schema and the cache of the table are as they were.
  pub batch_insert_failed :
      (c : Codec) (same : ℕ → Bool) (batches : List RecordBatch) (w : W) (t : Table)
      → AllOrNothing t (batch_insert json store sort c now same batches (w, t))
  unfolding batch_insert next_fragment_up
  batch_insert_failed c same batches w t =
      resume_lift t (merged_batch same batches) _ (w, t) (refl, refl)
        (λ batch.
          resume_writer t
            (write_batch c store batch.columns
              (w, new_fragment_writer t.schema t.next_fragment_id t.table_path t.compression))
            _
            (λ fw v. resume-done t _ (finish fw) (
              commit_version_failed t.schema (λ m. m.fragments ++ finish fw ∷ [])
                (λ _. t.next_fragment_id) v t (next_fragment_up t) (refl, refl))))
