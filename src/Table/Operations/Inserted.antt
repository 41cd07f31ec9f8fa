-- ===== src/Table/Operations/Inserted.antt =====
-- What `BatchInsert`, `AddColumn` and `DropColumn` of table/table.go commit.
use golance_db.Prelude.{
  ℕ, ◌<◌, ◌≡◌, ◌≢◌, sym, ap, ◌∙◌, Bool, true, List, [], ◌∷◌, ◌++◌, Option, none, some, Result, ok,
  err, panic, length, All, arith, length-append, ok-injective,
}
use golance_db.Prelude.Int.{ℤ, pos, ltb_ℤ, ◌≤ℤ◌, IsInt64}
use golance_db.Prelude.Sort.{Sorter}
use golance_db.Prelude.Dict.{keys, Distinct}
use golance_db.Prelude.Stateful.{done, modify, ◌>>◌, ran, ran_look, ran_world}
use golance_db.Bytes.{Bytes}
use mathlib.Core.Path.{subst}
use golance_db.Text.{FilePath}
use golance_db.Storage.Store.{Store, StoreLaws}
use golance_db.Encode.Compression.{Codec, CodecLaws}
use golance_db.Query.Reader.{read_column, new_fragment_reader}
use golance_db.Table.Types.{Schema, Fragment, Manifest}
use golance_db.Table.VersionManager.{publish, latest}
use golance_db.Table.VersionManager.Publish.{IsCache, latest-publish}
use golance_db.Table.ManifestStore.{ManifestJson, read_manifest, manifest_path}
use golance_db.Table.ManifestStore.Updates.{write_manifest}
use golance_db.Table.ManifestStore.Files.{Survives}
use golance_db.Table.ManifestStore.Committed.{read_manifest-write_manifest, write_manifest_frame}
use golance_db.Table.FragmentWriter.{
  RecordBatch, FragmentWriter, new_fragment_writer, write_batch, finish, column_path, fragment_path,
}
use golance_db.Table.FragmentWriter.RoundTrip.{IsStorable, read_column-later}
use golance_db.Table.Operations.{Table, versions_path}
use golance_db.Table.Operations.Changes.{
  manifest_of, cached_latest, merged_batch, next_version_up, next_fragment_up, with_writer, written,
  commit_version, batch_insert,
}

cached_latest_inv : (o : Option Manifest) {m : Manifest} → cached_latest o ≡ ok m → o ≡ some m
cached_latest_inv none h = cc
cached_latest_inv (some m) h = cc

module _ {W : Type 0} (json : ManifestJson) (store : Store W) (sort : Sorter ℤ ltb_ℤ) where
  -- What a commit that succeeded did
  abbrev pub Commits :
      ℤ → Schema → (Manifest → List Fragment) → (Manifest → ℤ) → W → Table → W × Table → Type 0
  Commits now schema fragments max_fragment_id w t s =
      (last : Manifest) × (latest t.version_mgr ≡ some last)
      × (write_manifest store (versions_path t.table_path) json
            (manifest_of t.next_version schema (fragments last) (max_fragment_id last) now) w
          ≡ (ok tt, s.0))
      × (s.1 ≡ record (next_version_up t) {
        schema = schema;
        version_mgr =
            publish sort
              (manifest_of t.next_version schema (fragments last) (max_fragment_id last) now)
              t.version_mgr;
      })

  pub commit_version_inv :
      (now : ℤ) (schema : Schema) (fragments : Manifest → List Fragment)
      (max_fragment_id : Manifest → ℤ) (w : W) (t : Table) (s : W × Table)
      → commit_version json store sort now schema fragments max_fragment_id (w, t) ≡ (ok tt, s)
      → Commits now schema fragments max_fragment_id w t s
  unfolding commit_version
  commit_version_inv now schema fragments max_fragment_id w t s h =
      let (last, cached, h1) = ran_look (λ _. cached_latest (latest t.version_mgr)) _ (w, t) h in
      let m = manifest_of t.next_version schema (fragments last) (max_fragment_id last) now in
      let (u, v, wrote, h2) =
        ran_world (write_manifest store (versions_path t.table_path) json m)
          (λ _.
            modify (λ t. record t { schema = schema; version_mgr = publish sort m t.version_mgr }))
          w (next_version_up t) h1 in
      (
        last,
        cached_latest_inv (latest t.version_mgr) cached,
        wrote ∙ ap (λ q. (ok tt, q.1.0)) h2,
        sym (ap (λ q. q.1.1) h2),
      )

  written_inv :
      {X : Type 0} (x : X) (p : Result (Unit {0}) × (W × FragmentWriter)) {fw : FragmentWriter}
      {s : W × X}
      → written x p ≡ (ok fw, s)
      → (p ≡ (ok tt, (s.0, fw))) × (s ≡ (s.0, x))
  written_inv x (ok u, (w, fw)) {fw = fw'} {s = s} h =
      let state : s ≡ (w, x) = sym (ap (λ p. p.1) h) in
      let same : fw ≡ fw' = ok-injective (ap (λ p. p.0) h) in
      (
        ap (λ (v : W). (ok tt, (v, fw))) (ap (λ q. q.0) (sym state))
            ∙ ap (λ (f : FragmentWriter). (ok tt, (s.0, f))) same,
        state ∙ ap (λ (v : W). (v, x)) (ap (λ q. q.0) (sym state)),
      )
  written_inv x (err why, (w, fw)) h = cc
  written_inv x (panic, (w, fw)) h = cc

  module _ (c : Codec) (now : ℤ) (same : ℕ → Bool) where
    abbrev first_writer : Table → FragmentWriter
    first_writer t = new_fragment_writer t.schema t.next_fragment_id t.table_path t.compression

    -- What a `BatchInsert` that succeeded did
    batch_insert_inv :
        (batches : List RecordBatch) (w : W) (t : Table) (frag : Fragment) (s : W × Table)
        → batch_insert json store sort c now same batches (w, t) ≡ (ok frag, s)
        → (batch : RecordBatch) × (fw : FragmentWriter) × (w1 : W) × (merged_batch same batches
            ≡ ok batch)
          × (write_batch c store batch.columns (w, first_writer t) ≡ (ok tt, (w1, fw)))
          × (frag ≡ finish fw)
          × Commits now t.schema
              (λ m. m.fragments ++ finish fw ∷ [])
              (λ _. t.next_fragment_id)
              w1
              (next_fragment_up t)
              s
    unfolding batch_insert
    batch_insert_inv batches w t frag s h =
        let (batch, merged, h1) = ran_look (λ _. merged_batch same batches) _ (w, t) h in
        let (fw, s1, wrote, h2) =
          ran (with_writer (write_batch c store batch.columns) (first_writer t)) _ (w, t) h1 in
        let (ended, kept) =
          written_inv t (write_batch c store batch.columns (w, first_writer t)) wrote in
        let fragments = λ (m : Manifest). m.fragments ++ finish fw ∷ [] in
        let (u, s2, committed, h3) =
          ran (commit_version json store sort now t.schema fragments (λ _. t.next_fragment_id))
            (λ _. done (finish fw)) (s1.0, next_fragment_up t)
            (subst
              (λ q.
                (modify next_fragment_up
                    >> (commit_version json store sort now t.schema fragments
                          (λ _. t.next_fragment_id)
                        >> done (finish fw)))
                  q
                ≡ (ok frag, s))
              kept h2) in
        (
          batch,
          fw,
          s1.0,
          merged,
          ended,
          sym (ok-injective (ap (λ p. p.0) h3)),
          commit_version_inv now t.schema fragments (λ _. t.next_fragment_id) s1.0
              (next_fragment_up t) s
              (committed ∙ ap (λ (q : W × Table). (ok tt, q)) (ap (λ p. p.1) h3)),
        )

    column_path-ne-manifest_path :
        (table_path : FilePath) (fragment_id id v : ℤ)
        → column_path (fragment_path table_path fragment_id) id
          ≢ manifest_path (versions_path table_path) v
    unfolding column_path fragment_path manifest_path versions_path
    column_path-ne-manifest_path table_path fragment_id id v e =
        omega (arith, ap length e, length-append {0})

    -- Over a store and a codec that keep their promises, where `BatchInsert` succeeds on a table
    -- whose cache is well formed with room for a version, whose next version is at least 0 and
    -- over the cached ones, and the new manifest survives its JSON form: the manifest of that
    -- version, with the fragments of the one that was the latest and the new fragment behind them,
    -- is in its file and is the latest that is cached; the schema stays; and if the ids of the
    -- batch's columns are distinct int64 and its columns fit the schema and the format, each column
    -- is read back from the new fragment.
    pub batch_insert_sound :
        (content : FilePath → W → Option Bytes)
        → StoreLaws store content
        → CodecLaws c
        → (batches : List RecordBatch) (batch : RecordBatch) (w w' : W) (t t' : Table)
          (frag : Fragment) (n : ℕ)
        → merged_batch same batches ≡ ok batch
        → IsCache t.version_mgr
        → t.version_mgr.max_versions ≡ pos n
        → 0 < n
        → pos 0 ≤ℤ t.next_version
        → ltb_ℤ t.version_mgr.latest_version t.next_version ≡ true
        → All IsInt64 (keys batch.columns)
        → Distinct (keys batch.columns)
        → All (IsStorable t.schema) batch.columns
        → ((last : Manifest)
            → latest t.version_mgr ≡ some last
            → Survives json (
                manifest_of t.next_version t.schema
                  (last.fragments ++ frag ∷ [])
                  t.next_fragment_id
                  now))
        → batch_insert json store sort c now same batches (w, t) ≡ (ok frag, (w', t'))
        → (last : Manifest) × (latest t.version_mgr ≡ some last)
          × (latest t'.version_mgr
              ≡ some (
                  manifest_of t.next_version t.schema
                    (last.fragments ++ frag ∷ [])
                    t.next_fragment_id
                    now))
          × (read_manifest store (versions_path t.table_path) json t.next_version w'
              ≡ ok (
                  manifest_of t.next_version t.schema
                    (last.fragments ++ frag ∷ [])
                    t.next_fragment_id
                    now))
          × (t'.schema ≡ t.schema)
          × All
              (λ column.
                read_column c
                  (new_fragment_reader
                    (λ path offset size. store.read path offset size w')
                    t.schema
                    t.compression)
                  frag
                  column.0
                ≡ ok column.1)
              batch.columns
    unfolding next_fragment_up next_version_up golance_db.Table.Types.new_manifest
    batch_insert_sound content laws codec_laws batches batch w w' t t' frag n merged cache limit
          room nonneg up ints distinct storable j h =
        let (b, fw, w1, merged', wrote, e, (last, cached, put, table)) =
          batch_insert_inv batches w t frag (w', t') h in
        let wrote' : write_batch c store batch.columns (w, first_writer t) ≡ (ok tt, (w1, fw)) =
          subst
            (λ (x : RecordBatch).
              write_batch c store x.columns (w, first_writer t) ≡ (ok tt, (w1, fw)))
            (ok-injective (sym merged' ∙ merged)) wrote in
        let base = versions_path t.table_path in
        let m =
          manifest_of t.next_version t.schema (last.fragments ++ finish fw ∷ []) t.next_fragment_id
            now in
        let j' : Survives json m = rw e at (j last cached) in
        (
          last,
          cached,
          rw e (
              ap (λ (x : Table). latest x.version_mgr) table
              ∙ latest-publish sort n t.version_mgr m cache nonneg limit room up),
          rw e (read_manifest-write_manifest store base json content laws m w1 w' j' put),
          ap (λ (x : Table). x.schema) table,
          rw e (
              read_column-later c codec_laws store content laws t.schema t.next_fragment_id
                t.table_path t.compression batch.columns w w1 w' fw ints distinct storable wrote'
                (λ id.
                  sym (
                    ap
                      (λ p.
                        content (column_path (fragment_path t.table_path t.next_fragment_id) id)
                          p.1)
                      put)
                  ∙ write_manifest_frame store base json content laws m _ w1 (
                      column_path-ne-manifest_path t.table_path t.next_fragment_id id
                        t.next_version))),
        )
