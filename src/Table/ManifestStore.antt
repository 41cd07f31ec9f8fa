-- ===== src/Table/ManifestStore.antt =====
-- table/manifest_store.go: manifests as files of a store, one for each version, and the file
-- `_latest`, which names the version last committed. This file has the reading operations. The JSON
-- form of a manifest and `sort.Slice` are parameters.
pub mod Updates
pub mod Files
pub mod Versions
pub mod Committed
use golance_db.Prelude.{
  ℕ, Bool, true, false, List, [], ◌∷◌, ◌++◌, Option, none, some, Result, ok, err, panic,
  if◌then◌else◌, ◌>>=◌, no_manifests, bad_version,
}
use golance_db.Prelude.Int.{ℤ, pos, ltb_ℤ}
use golance_db.Prelude.Sort.{Sorter}
use golance_db.Bytes.{Bytes}
use golance_db.Text.{
  FilePath, join, base_name, format_int, parse_int, has_suffix, trim_suffix, trim_space,
}
use golance_db.Storage.Store.{Store}
use golance_db.Table.Types.{Manifest}
use golance_db.Table.VersionManager.{last_or}

-- `json.Marshal` and `json.Unmarshal` of a manifest
pub record ManifestJson : Type 0 where
  pub marshal : Manifest → Result Bytes
  pub unmarshal : Bytes → Result Manifest

-- ".manifest"
abbrev pub manifest_ext : Bytes
manifest_ext = b'.' ∷ b'm' ∷ b'a' ∷ b'n' ∷ b'i' ∷ b'f' ∷ b'e' ∷ b's' ∷ b't' ∷ []

-- "_latest"
abbrev pub latest_name : Bytes
latest_name = b'_' ∷ b'l' ∷ b'a' ∷ b't' ∷ b'e' ∷ b's' ∷ b't' ∷ []

unfoldable pub manifest_path : FilePath → ℤ → FilePath
manifest_path base version = join base (format_int version ++ manifest_ext)

unfoldable pub latest_path : FilePath → FilePath
latest_path base = join base latest_name

-- What an error of `strconv.ParseInt` becomes
abbrev pub parsed : Option ℤ → Result ℤ
parsed none = err bad_version
parsed (some v) = ok v

-- The loop of `ListVersions` over the paths: the names that are no version are skipped.
abbrev pub cons_version : Option ℤ → List ℤ → List ℤ
cons_version none vs = vs
cons_version (some v) vs = v ∷ vs

unfoldable pub path_versions : List FilePath → List ℤ
path_versions [] = []
path_versions (p ∷ ps) =
    let rest = path_versions ps in
    if has_suffix (base_name p) manifest_ext
    then cons_version (parse_int (trim_suffix (base_name p) manifest_ext)) rest
    else rest

-- `versions[len(versions)-1]`
unfoldable pub last_version : List ℤ → Result ℤ
last_version [] = err no_manifests
last_version (v ∷ vs) = ok (last_or v vs)

module _ {W : Type 0} (store : Store W) (base : FilePath) where
  unfoldable pub read_all : FilePath → W → Result Bytes
  read_all path w = do n ← store.size path w; store.read path (pos 0) n w

  unfoldable pub read_latest : W → Result ℤ
  unfolding latest_path read_all
  read_latest w = do
    there ← store.exists (latest_path base) w
    if there
        then (do bytes ← read_all (latest_path base) w; parsed (parse_int (trim_space bytes)))
        else ok (pos 0)

  unfoldable pub read_manifest : ManifestJson → ℤ → W → Result Manifest
  unfolding manifest_path read_all
  read_manifest json version w = do
    bytes ← read_all (manifest_path base version) w
    json.unmarshal bytes

  module _ (sort : Sorter ℤ ltb_ℤ) where
    unfoldable pub list_versions : W → Result (List ℤ)
    unfolding path_versions
    list_versions w = do
      there ← store.exists base w
      if there then (do paths ← store.list base w; ok (sort.slice (path_versions paths))) else ok []

    unfoldable pub latest_version : W → Result ℤ
    unfolding last_version
    latest_version w = do versions ← list_versions w; last_version versions
