-- ===== src/Examples/Table.antt =====
-- table/version_manager.go at concrete inputs.
use golance_db.Prelude.{ℕ, ◌≡◌, refl, List, [], ◌∷◌, Option, none, some, arith, inl, inr}
use golance_db.Prelude.Int.{ℤ, pos, ltb_ℤ, ℤ_discrete}
use golance_db.Prelude.Sort.{Sorter, insertion_sorter}
use mathlib.Core.Logic.{if_pos}
use golance_db.Table.Types.{Manifest}
use golance_db.Table.VersionManager.{VersionManager, add_version, publish, remove_version, latest}
use golance_db.Table.VersionManager.Cache.{IsEvicted}
use golance_db.Table.VersionManager.Publish.{
  IsCache, publish-IsEvicted, latest-publish, remove_version-IsCache,
}

abbrev versions : Sorter ℤ ltb_ℤ
versions = insertion_sorter ltb_ℤ

abbrev manifest_of : ℤ → Manifest
manifest_of v = record {
  version = v;
  timestamp = pos 0;
  schema = record { fields = [] };
  fragments = [];
  index_ids = [];
  max_fragment_id = pos 0;
  tags = [];
}

-- A cache that holds two versions of two.
abbrev full : VersionManager
full = record {
  manifests = (pos 2, manifest_of (pos 2)) ∷ (pos 1, manifest_of (pos 1)) ∷ [];
  latest_version = pos 2;
  max_versions = pos 2;
}

full-IsCache : IsCache full
unfolding golance_db.Prelude.Dict.get
full-IsCache = inr (record {
  distinct = (((λ e. ground arith), tt), (tt, tt));
  bounds = (omega arith, (omega arith, tt));
  current = (manifest_of (pos 2), if_pos (ℤ_discrete (pos 2) (pos 2)) refl _ _);
})

publish-IsEvicted_example :
    IsEvicted 2
      (add_version (manifest_of (pos 3)) full)
      (publish versions (manifest_of (pos 3)) full)
publish-IsEvicted_example =
    publish-IsEvicted versions 2 full (manifest_of (pos 3)) full-IsCache (omega arith) refl
      (omega arith)

latest-publish_example :
    latest (publish versions (manifest_of (pos 3)) full) ≡ some (manifest_of (pos 3))
latest-publish_example =
    latest-publish versions 2 full (manifest_of (pos 3)) full-IsCache (omega arith) refl
      (omega arith) refl

remove_version-IsCache_example : IsCache (remove_version versions (pos 2) full)
remove_version-IsCache_example = remove_version-IsCache versions full (pos 2) full-IsCache
