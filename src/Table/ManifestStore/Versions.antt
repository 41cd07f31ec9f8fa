-- ===== src/Table/ManifestStore/Versions.antt =====
-- The versions that table/manifest_store.go lists.
use golance_db.Prelude.{
  ℕ, zero, suc, ◌≡◌, refl, sym, ap, ◌∙◌, List, [], ◌∷◌, ◌++◌, Option, some, ok, true, Bool-cases,
  Option-cases, some-injective, inl, inr, get_elem?, All, Mem, >>=-eq-ok, ok-injective, All_imp,
  if◌then◌else◌,
}
use golance_db.Prelude.Int.{ℤ, IsInt64, ltb_ℤ, ◌≤ℤ◌}
use golance_db.Prelude.Sort.{Sorter, IsSorted}
use golance_db.Prelude.Perms.{All-mem, All_of_mem, All-perm}
use golance_db.Bytes.{Bytes}
use golance_db.Text.{
  FilePath, join, base_name, format_int, parse_int, has_suffix, trim_suffix, base_name-join,
}
use golance_db.Text.RoundTrip.{parse_int-format_int, trim_suffix-append, has_suffix-append}
use golance_db.Storage.Store.{Store, StoreLaws, IsFileOf}
use golance_db.Table.VersionManager.{last_or}
use golance_db.Table.VersionManager.Versions.{last-ge, slice-nil, ltb_ℤ-IsWeakOrder}
use golance_db.Table.ManifestStore.{
  manifest_path, manifest_ext, path_versions, list_versions, latest_version, last_version,
  cons_version,
}
use mathlib.Core.List.{mem-cons_self, mem-cons_of_mem, not-mem-nil}
use mathlib.Core.List.Perm
use mathlib.Core.Logic.{∥∥₁_prop}
use mathlib.Core.Path.{subst}
use native.Mathlib.Bridge.{le_prop}

-- The version that the name of a file stands for
abbrev pub NamesVersion : Bytes → ℤ → Type 0
NamesVersion name v =
    (has_suffix name manifest_ext ≡ true) × (parse_int (trim_suffix name manifest_ext) ≡ some v)

format-NamesVersion : (v : ℤ) → IsInt64 v → NamesVersion (format_int v ++ manifest_ext) v
format-NamesVersion v h = (
  has_suffix-append (format_int v) manifest_ext,
  rw (trim_suffix-append (format_int v) manifest_ext) (parse_int-format_int v h),
)

later_version :
    (p : FilePath) (v : ℤ) (vs : List ℤ)
    → Mem v vs
    → Mem v (
        if has_suffix (base_name p) manifest_ext
        then cons_version (parse_int (trim_suffix (base_name p) manifest_ext)) vs
        else vs)
later_version p v vs m = elim (Bool-cases (has_suffix (base_name p) manifest_ext)) [
  | inl suffix ↦
      rw suffix (elim (Option-cases (parse_int (trim_suffix (base_name p) manifest_ext))) [
        | inl bad ↦ rw bad m
        | inr (u, number) ↦ rw number (mem-cons_of_mem u m)
      ])
  | inr other ↦ rw other m
]

last_version_some : (d v : ℤ) (vs : List ℤ) → Mem v vs → last_version vs ≡ ok (last_or d vs)
unfolding last_version
last_version_some d v [] m = absurd (not-mem-nil m)
last_version_some d v (u ∷ vs) m = refl

path_versions-mem :
    (ps : List FilePath) (i : ℕ) {p : FilePath} (v : ℤ)
    → get_elem? ps i ≡ some p
    → NamesVersion (base_name p) v
    → Mem v (path_versions ps)
unfolding path_versions
path_versions-mem [] i v h n = cc
path_versions-mem (p ∷ ps) zero v h n =
    let (suffix, number) = subst (λ q. NamesVersion (base_name q) v) (some-injective (sym h)) n in
    rw (suffix, number) mem-cons_self
path_versions-mem (p ∷ ps) (suc i) v h n =
    later_version p v (path_versions ps) (path_versions-mem ps i v h n)

module _ {W : Type 0} (store : Store W) (base : FilePath) (content : FilePath → W → Option Bytes)
    (laws : StoreLaws store content) where
  -- A file of the directory names the version.
  abbrev pub IsNamed : W → ℤ → Type 0
  IsNamed w v =
      (name : Bytes) × (b : Bytes) × NamesVersion name v × (content (join base name) w ≡ some b)

  IsNamed-path :
      (w : W) (p : FilePath) (v : ℤ)
      → IsFileOf content w base p
      → NamesVersion (base_name p) v
      → IsNamed w v
  IsNamed-path w p v (name, b, e, at) n = (
    name,
    b,
    subst (λ s. NamesVersion s v) (ap base_name e ∙ base_name-join base name) n,
    subst (λ q. content q w ≡ some b) e at,
  )

  path_versions-IsNamed :
      (w : W) (ps : List FilePath)
      → All (IsFileOf content w base) ps
      → All (IsNamed w) (path_versions ps)
  unfolding path_versions
  path_versions-IsNamed w [] h = tt
  path_versions-IsNamed w (p ∷ ps) h =
      let rest = path_versions-IsNamed w ps h.1 in
      elim (Bool-cases (has_suffix (base_name p) manifest_ext)) [
        | inl suffix ↦
            rw suffix (elim (Option-cases (parse_int (trim_suffix (base_name p) manifest_ext))) [
              | inl bad ↦ rw bad rest
              | inr (v, number) ↦ rw number (IsNamed-path w p v h.0 (suffix, number), rest)
            ])
        | inr other ↦ rw other rest
      ]

  module _ (sort : Sorter ℤ ltb_ℤ) where
    -- `ListVersions` finds the version of each manifest file of the directory.
    pub list_versions-mem :
        (v : ℤ) (w : W) (b : Bytes)
        → IsInt64 v
        → content (manifest_path base v) w ≡ some b
        → (vs : List ℤ) × (list_versions store base sort w ≡ ok vs) × Mem v vs
    unfolding list_versions manifest_path
    list_versions-mem v w b range at =
        let name = format_int v ++ manifest_ext in
        let (ps, i, found, here) = laws.list_complete base name w b at in
        (
          sort.slice (path_versions ps),
          rw (laws.exists_dir base name w b at, found) refl,
          (Perm.mem_iff (sort.slice-perm (path_versions ps))).1 (
              path_versions-mem ps i v here
                (rw (base_name-join base name) (format-NamesVersion v range))),
        )

    list_versions_inv :
        (w : W) (vs : List ℤ)
        → list_versions store base sort w ≡ ok vs
        → (l : List ℤ) × (vs ≡ sort.slice l) × All (IsNamed w) l
    unfolding list_versions
    list_versions_inv w vs h =
        let (there, asked, h') = >>=-eq-ok (store.exists base w) _ h in
        elim (Bool-cases there) [
          | inl is ↦
              let (ps, found, h'') = >>=-eq-ok (store.list base w) _ (rw is at h') in
              (
                path_versions ps,
                ok-injective (sym h''),
                path_versions-IsNamed w ps (laws.list_sound base w ps found),
              )
          | inr no_dir ↦ ([], ok-injective (sym (rw no_dir at h')) ∙ sym (slice-nil sort), tt)
        ]

    -- Over a store that keeps its promises, what `ListVersions` returns is ascending, and a file of
    -- the directory names each version.
    pub list_versions-IsNamed :
        (w : W) (vs : List ℤ)
        → list_versions store base sort w ≡ ok vs
        → IsSorted ltb_ℤ vs × All (λ v. ∥ IsNamed w v ∥₁) vs
    list_versions-IsNamed w vs h =
        let (l, e, named) = list_versions_inv w vs h in
        rw e (
          sort.slice-IsSorted (λ _. true) ltb_ℤ-IsWeakOrder l (All_of_mem _ l (λ a m. refl)),
          All-perm (λ v. ∥ IsNamed w v ∥₁) (λ v. ∥∥₁_prop) l (sort.slice l)
              (Perm.symm (sort.slice-perm l)) (All_imp (IsNamed w) _ (λ v n. ∣ n ∣₁) l named),
        )

    -- Over a store that keeps its promises, `LatestVersion` succeeds where there is a manifest file
    -- of an int64 version, and is no less than it.
    pub latest_version-ge :
        (v : ℤ) (w : W) (b : Bytes)
        → IsInt64 v
        → content (manifest_path base v) w ≡ some b
        → (u : ℤ) × (latest_version store base sort w ≡ ok u) × (v ≤ℤ u)
    unfolding latest_version
    latest_version-ge v w b range at =
        let (vs, listed, m) = list_versions-mem v w b range at in
        let (l, e, _) = list_versions_inv w vs listed in
        (
          last_or v vs,
          rw listed (last_version_some v v vs m),
          subst (λ us. v ≤ℤ last_or v us) (sym e)
              (All-mem (λ y. y ≤ℤ last_or v (sort.slice l)) (λ y. le_prop) l (last-ge sort v l) v
                ((Perm.mem_iff (sort.slice-perm l)).0 (subst (Mem v) e m))),
        )
