-- ===== src/Table/ManifestStore/Updates.antt =====
-- The operations of table/manifest_store.go that change the store. `Commit` holds the lock
-- throughout, so it is one step.
use golance_db.Prelude.{err, if◌then◌else◌, version_conflict}
use golance_db.Prelude.Int.{ℤ, eqb_ℤ}
use golance_db.Prelude.Stateful.{Io, lift, look, ◌>>=◌, ◌>>◌}
use golance_db.Text.{FilePath, format_int}
use golance_db.Storage.Store.{Store}
use golance_db.Table.Types.{Manifest}
use golance_db.Table.ManifestStore.{ManifestJson, manifest_path, latest_path, read_latest}

module _ {W : Type 0} (store : Store W) (base : FilePath) where
  unfoldable pub delete_version : ℤ → Io W (Unit {0})
  unfolding manifest_path
  delete_version version = store.delete (manifest_path base version)

  module _ (json : ManifestJson) where
    unfoldable pub write_manifest : Manifest → Io W (Unit {0})
    unfolding manifest_path
    write_manifest m = do
      bytes ← lift (json.marshal m)
      store.write (manifest_path base m.version) bytes

    -- `Commit`, behind the reading of the version that is the latest
    unfoldable pub commit_after : Manifest → ℤ → ℤ → Io W (Unit {0})
    unfolding write_manifest latest_path
    commit_after m expected current =
        if eqb_ℤ current expected
        then (do write_manifest m; store.write (latest_path base) (format_int m.version))
        else lift (err version_conflict)

    unfoldable pub commit : Manifest → ℤ → Io W (Unit {0})
    unfolding commit_after
    commit m expected = look (read_latest store base) >>= commit_after m expected
