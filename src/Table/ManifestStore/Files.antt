-- ===== src/Table/ManifestStore/Files.antt =====
-- The files of table/manifest_store.go: which paths differ, and what is read from a file.
use golance_db.Prelude.{◌≡◌, ◌≢◌, refl, ap, Option, some, ok, length, arith, length-append}
use golance_db.Prelude.Int.{ℤ, IsInt64}
use golance_db.Bytes.{Bytes}
use golance_db.Text.{FilePath, format_int, join-injective}
use golance_db.Text.RoundTrip.{format_int-append_injective}
use golance_db.Storage.Store.{Store, StoreLaws}
use golance_db.Table.Types.{Manifest}
use golance_db.Table.ManifestStore.{
  ManifestJson, manifest_path, latest_path, manifest_ext, read_all, read_manifest,
}

-- What is marshalled of the manifest is unmarshalled again, as it is where its strings are UTF-8.
abbrev pub Survives : ManifestJson → Manifest → Type 0
Survives json m = (b : Bytes) → json.marshal m ≡ ok b → json.unmarshal b ≡ ok m

pub manifest_path-injective :
    (base : FilePath) (u v : ℤ)
    → IsInt64 u
    → IsInt64 v
    → manifest_path base u ≡ manifest_path base v
    → u ≡ v
unfolding manifest_path
manifest_path-injective base u v hu hv e =
    format_int-append_injective u v manifest_ext hu hv (join-injective base e)

pub manifest_path-ne-latest_path :
    (base : FilePath) (v : ℤ) → manifest_path base v ≢ latest_path base
unfolding manifest_path latest_path
manifest_path-ne-latest_path base v e =
    omega (arith, ap length (join-injective base e), length-append (format_int v) manifest_ext)

module _ {W : Type 0} (store : Store W) (base : FilePath) (content : FilePath → W → Option Bytes)
    (laws : StoreLaws store content) where
  pub read_all_lem :
      (p : FilePath) (w : W) (b : Bytes) → content p w ≡ some b → read_all store base p w ≡ ok b
  unfolding read_all
  read_all_lem p w b h = rw (laws.size_lem p w b h, laws.read_lem p w b h) refl

  -- A manifest is in its file.
  abbrev pub IsStored : ManifestJson → W → Manifest → Type 0
  IsStored json w m =
      (b : Bytes) × (json.marshal m ≡ ok b) × (content (manifest_path base m.version) w ≡ some b)

  pub read_manifest-IsStored :
      (json : ManifestJson) (w : W) (m : Manifest)
      → Survives json m
      → IsStored json w m
      → read_manifest store base json m.version w ≡ ok m
  unfolding read_manifest
  read_manifest-IsStored json w m j (b, made, at) =
      rw (laws.size_lem _ w b at, laws.read_lem _ w b at) (j b made)
