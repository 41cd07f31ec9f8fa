-- ===== src/Examples/Stores.antt =====
-- The manifest store on a disk in memory.
use golance_db.Prelude.{
  ℕ, suc, zero, ◌≡◌, ◌≢◌, refl, sym, ap, ◌∙◌, Bool, true, false, List, [], ◌∷◌, ◌++◌, Option, none,
  some, Result, ok, err, ◌>>=◌, get_elem?, bad_manifest, ◌+◌, ok-injective, inl, inr, if◌then◌else◌,
  version_conflict, Mem, All, arith,
}
use golance_db.Prelude.Int.{ℤ, pos, ℤ_discrete, ltb_ℤ, ◌≤ℤ◌}
use golance_db.Prelude.Sort.{Sorter, insertion_sorter, IsSorted}
use golance_db.Bytes.{Bytes}
use golance_db.Text.{FilePath}
use golance_db.Table.Types.{Manifest}
use golance_db.Table.ManifestStore.{
  ManifestJson, manifest_path, latest_path, read_latest, read_manifest, list_versions,
  latest_version,
}
use golance_db.Table.ManifestStore.Updates.{commit}
use golance_db.Table.ManifestStore.Files.{Survives, IsStored}
use golance_db.Table.ManifestStore.Committed.{
  commit_sound, commit-commit, read_manifest-commit_other,
}
use golance_db.Table.ManifestStore.Versions.{list_versions-IsNamed, latest_version-ge, IsNamed}
use golance_db.Examples.Disk.{
  Disk, disk_store, disk_content, disk_laws, memory, memory-OsLaws, file,
}
use golance_db.Storage.Store.{StoreLaws}
use golance_db.Storage.LocalFs.{local_fs}
use golance_db.Storage.LocalFs.Laws.{local_fs-StoreLaws}
use golance_db.Prelude.Dict.{dec_cases}
use mathlib.Core.Path.{subst}
use mathlib.Core.Logic.{ite, if_pos, if_neg}
use native.Mathlib.Decide.{ℕ_discrete}

local_fs-StoreLaws_example : StoreLaws disk_store disk_content
local_fs-StoreLaws_example = local_fs-StoreLaws memory file memory-OsLaws []

unfoldable pub manifest_discrete : Discrete Manifest
manifest_discrete = hlevel (ℕ_discrete, ℤ_discrete)

-- A JSON form for the manifests of a list: the bytes are the place in the list.
abbrev pub place : Manifest → List Manifest → ℕ → Result Bytes
place m [] i = err bad_manifest
place m (n ∷ ms) i = let rest = place m ms (suc i) in ite (manifest_discrete m n) (ok (i ∷ [])) rest

abbrev pub at_manifest : Option Manifest → Result Manifest
at_manifest none = err bad_manifest
at_manifest (some m) = ok m

abbrev pub at_place : List Manifest → Bytes → Result Manifest
at_place ms [] = err bad_manifest
at_place ms (i ∷ bytes) = at_manifest (get_elem? ms i)

abbrev pub json_of : List Manifest → ManifestJson
json_of ms = record { marshal = λ m. place m ms 0; unmarshal = at_place ms }

json_of-law :
    (ms before : List Manifest) (m : Manifest) (i : ℕ) (b : Bytes)
    → ((j : ℕ) (n : Manifest) → get_elem? ms j ≡ some n → at_place before ((i + j) ∷ []) ≡ ok n)
    → place m ms i ≡ ok b
    → at_place before b ≡ ok m
json_of-law [] before m i b found h = cc
json_of-law (n ∷ ms) before m i b found h = elim (dec_cases (manifest_discrete m n)) [
  | inl same ↦
      let e : i ∷ [] ≡ b = ok-injective (sym (if_pos (manifest_discrete m n) same _ _) ∙ h) in
      subst (λ x. at_place before x ≡ ok m) e
        (ap (λ (k : ℕ). at_place before (k ∷ [])) (omega arith) ∙ found 0 n refl ∙ ap ok (sym same))
  | inr differ ↦
      json_of-law ms before m (suc i) b
        (λ j k e. ap (λ (x : ℕ). at_place before (x ∷ [])) (omega arith) ∙ found (suc j) k e)
        (sym (if_neg (manifest_discrete m n) differ _ _) ∙ h)
]

pub json_of-Survives : (ms : List Manifest) (m : Manifest) → Survives (json_of ms) m
json_of-Survives ms m b h =
    json_of-law ms ms m 0 b
      (λ j n e. ap (λ (k : ℕ). at_place ms (k ∷ [])) (zero_plus j) ∙ ap at_manifest e) h
  where
    zero_plus : (j : ℕ) → 0 + j ≡ j
    zero_plus j = omega arith

-- Two versions of a table without columns, and their JSON form
abbrev version_of : ℕ → Manifest
version_of v = record {
  version = pos v;
  timestamp = pos 5;
  schema = record { fields = [] };
  fragments = [];
  index_ids = [];
  max_fragment_id = pos 0;
  tags = [];
}

abbrev json : ManifestJson
json = json_of (version_of 1 ∷ version_of 2 ∷ [])

abbrev base : FilePath
base = (b't' ∷ []) ∷ []

abbrev one_version : Disk
one_version = (latest_path base, b'1' ∷ []) ∷ (manifest_path base (pos 1), 0 ∷ []) ∷ []

commit_run : commit disk_store base json (version_of 1) (pos 0) [] ≡ (ok tt, one_version)
unfolding commit read_latest local_fs manifest_discrete ℤ_discrete ℕ_discrete
    golance_db.Text.format_int
commit_run = refl

commit_sound_example :
    (read_latest disk_store base [] ≡ ok (pos 0))
    × (read_latest disk_store base one_version ≡ ok (pos 1))
    × (read_manifest disk_store base json (pos 1) one_version ≡ ok (version_of 1))
commit_sound_example =
    commit_sound disk_store base json disk_content disk_laws (version_of 1) (pos 0) [] one_version
      (json_of-Survives (version_of 1 ∷ version_of 2 ∷ []) (version_of 1)) (omega arith) commit_run

commit-commit_example :
    commit disk_store base json (version_of 2) (pos 0) one_version
    ≡ (err version_conflict, one_version)
commit-commit_example =
    commit-commit disk_store base json disk_content disk_laws (version_of 1) (version_of 2) (pos 0)
      [] one_version (json_of-Survives (version_of 1 ∷ version_of 2 ∷ []) (version_of 1))
      (omega arith) (λ e. cc) commit_run

first-IsStored : IsStored disk_store base disk_content disk_laws json one_version (version_of 1)
unfolding manifest_discrete ℤ_discrete ℕ_discrete manifest_path golance_db.Text.format_int
    latest_path
first-IsStored = (0 ∷ [], refl, refl)

first_file : disk_content (manifest_path base (pos 1)) one_version ≡ some (0 ∷ [])
unfolding manifest_path golance_db.Text.format_int latest_path
first_file = refl

list_run : list_versions disk_store base (insertion_sorter ltb_ℤ) one_version ≡ ok (pos 1 ∷ [])
unfolding list_versions local_fs golance_db.Text.parse_int golance_db.Text.format_int latest_path
    manifest_path golance_db.Prelude.Sort.insertion_sort golance_db.Storage.LocalFs.file_entries
    golance_db.Text.has_suffix golance_db.Text.trim_suffix
list_run = refl

-- The second version is committed on top of the first.
read_manifest-commit_other_example :
    read_manifest disk_store base json
      (pos 1)
      (commit disk_store base json (version_of 2) (pos 1) one_version).1
    ≡ ok (version_of 1)
read_manifest-commit_other_example =
    read_manifest-commit_other disk_store base json disk_content disk_laws (version_of 2)
      (version_of 1) (omega arith) (omega arith) (λ e. cc) (pos 1) one_version
      (json_of-Survives (version_of 1 ∷ version_of 2 ∷ []) (version_of 1)) first-IsStored

latest_version-ge_example :
    (u : ℤ) × (latest_version disk_store base (insertion_sorter ltb_ℤ) one_version ≡ ok u)
    × (pos 1 ≤ℤ u)
latest_version-ge_example =
    latest_version-ge disk_store base disk_content disk_laws (insertion_sorter ltb_ℤ) (pos 1)
      one_version (0 ∷ []) (omega arith) first_file

list_versions-IsNamed_example :
    IsSorted ltb_ℤ (pos 1 ∷ [])
    × All (λ v. ∥ IsNamed disk_store base disk_content disk_laws one_version v ∥₁) (pos 1 ∷ [])
list_versions-IsNamed_example =
    list_versions-IsNamed disk_store base disk_content disk_laws (insertion_sorter ltb_ℤ)
      one_version (pos 1 ∷ []) list_run
