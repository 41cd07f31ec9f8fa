-- ===== src/Table/VersionManager.antt =====
-- table/version_manager.go: the cache of manifests by version. Every method holds the lock
-- throughout, so each is one step. `sort.Slice` on the versions is a parameter.
pub mod Versions
pub mod Cache
pub mod Publish
use golance_db.Prelude.{
  ℕ, zero, suc, ◌+◌, Bool, true, false, not, ◌||◌, List, [], ◌∷◌, Option, none, some, length, ltb,
  if◌then◌else◌,
}
use golance_db.Prelude.Int.{ℤ, pos, negsuc, ltb_ℤ, eqb_ℤ, ℤ_discrete}
use golance_db.Prelude.Dict
use golance_db.Prelude.Dict.{keys}
use golance_db.Prelude.Sort.{Sorter}
use golance_db.Table.Types.{Manifest}

pub record VersionManager : Type 0 where
  pub manifests : List (ℤ × Manifest)
  pub latest_version : ℤ
  pub max_versions : ℤ

unfoldable pub new_version_manager : ℤ → VersionManager
new_version_manager max_versions = record {
  manifests = [];
  latest_version = negsuc 0;
  max_versions = max_versions;
}

-- `versions[0]` and `versions[len(versions)-1]`, where -1 stands for none
abbrev pub first_or : ℤ → List ℤ → ℤ
first_or d [] = d
first_or d (v ∷ vs) = v

abbrev pub last_or : ℤ → List ℤ → ℤ
last_or d [] = d
last_or d (v ∷ vs) = last_or v vs

-- `Publish` before `vm.evict()`
unfoldable pub add_version : Manifest → VersionManager → VersionManager
add_version m vm = record vm {
  manifests = Dict.put ℤ_discrete m.version m vm.manifests;
  latest_version = if ltb_ℤ vm.latest_version m.version then m.version else vm.latest_version;
}

module _ (s : Sorter ℤ ltb_ℤ) where
  unfoldable pub versions_locked : VersionManager → List ℤ
  versions_locked vm = s.slice (keys vm.manifests)

  unfoldable pub oldest_version : VersionManager → ℤ
  unfolding versions_locked
  oldest_version vm = first_or (negsuc 0) (versions_locked vm)

  unfoldable pub recompute_latest : VersionManager → ℤ
  unfolding versions_locked
  recompute_latest vm = last_or (negsuc 0) (versions_locked vm)

  -- The loop of `evict`, for a limit of n: each round deletes a version, so as many rounds as
  -- there are versions are enough.
  unfoldable pub evict_loop : ℕ → ℕ → VersionManager → VersionManager
  evict_loop zero n vm = vm
  evict_loop (suc fuel) n vm =
      let oldest = oldest_version vm in
      let rest =
        evict_loop fuel n (record vm { manifests = Dict.delete ℤ_discrete oldest vm.manifests }) in
      if ltb n (length vm.manifests)
      then if eqb_ℤ oldest vm.latest_version then vm else rest
      else vm

  unfoldable pub evict_limit : ℤ → VersionManager → VersionManager
  evict_limit (pos n) vm = if ltb 0 n then evict_loop (length vm.manifests) n vm else vm
  evict_limit (negsuc n) vm = vm

  unfoldable pub evict : VersionManager → VersionManager
  unfolding evict_limit
  evict vm = evict_limit vm.max_versions vm

  unfoldable pub publish : Manifest → VersionManager → VersionManager
  publish m vm = evict (add_version m vm)

  unfoldable pub remove_version : ℤ → VersionManager → VersionManager
  remove_version v vm =
      let left = record vm { manifests = Dict.delete ℤ_discrete v vm.manifests } in
      if eqb_ℤ v vm.latest_version
      then record left { latest_version = recompute_latest left }
      else left

unfoldable pub get_version : ℤ → VersionManager → Option Manifest
get_version v vm = Dict.get ℤ_discrete v vm.manifests

-- `Latest`
unfoldable pub latest : VersionManager → Option Manifest
latest vm =
    if ltb_ℤ vm.latest_version (pos 0)
    then none
    else Dict.get ℤ_discrete vm.latest_version vm.manifests

unfoldable pub clear : VersionManager → VersionManager
clear vm = record vm { manifests = []; latest_version = negsuc 0 }

unfoldable pub has_version : ℤ → VersionManager → Bool
has_version v vm = elim (Dict.get ℤ_discrete v vm.manifests) [ none ↦ false | some _ ↦ true ]
