-- ===== src/Table/VersionManager/Publish.antt =====
-- `Publish`, `Latest` and `Remove` of table/version_manager.go.
use golance_db.Prelude.{
  ℕ, ◌<◌, ◌≡◌, ◌≢◌, ◌⊎◌, refl, ap, sym, ◌∙◌, true, false, List, [], ◌∷◌, some, length, All,
  if◌then◌else◌, arith, Bool-cases, inl, inr, All_imp, lt→ltb,
}
use golance_db.Prelude.Int.{ℤ, pos, negsuc, ltb_ℤ, eqb_ℤ, ◌≤ℤ◌, ℤ_discrete}
use golance_db.Prelude.Dict
use golance_db.Prelude.Dict.{keys, Distinct, dec_cases}
use golance_db.Prelude.Sort.{Sorter}
use golance_db.Table.Types.{Manifest}
use golance_db.Table.VersionManager.{
  VersionManager, evict_loop, evict_limit, evict, add_version, publish, remove_version,
  recompute_latest, get_version, latest, last_or, new_version_manager,
}
use golance_db.Table.VersionManager.Versions.{last-ge, slice_last-mem, slice-nil}
use golance_db.Table.VersionManager.Cache.{
  Has, IsLive, IsEvicted, Has-of_mem, All_at, delete-IsLive, evict_loop-IsEvicted,
}
use mathlib.Core.Path.{subst}
use mathlib.Core.Logic.{if_pos, if_neg}

-- An empty cache has -1 for its latest version.
pub record IsEmpty (vm : VersionManager) : Type 0 where
  pub none_cached : vm.manifests ≡ []
  pub no_latest : vm.latest_version ≡ negsuc 0

abbrev pub IsCache : VersionManager → Type 0
IsCache vm = IsEmpty vm ⊎ IsLive vm

higher : (a b c : ℤ) → (pos 0 ≤ℤ c) × (c ≤ℤ a) → (pos 0 ≤ℤ c) × (c ≤ℤ (if ltb_ℤ a b then b else a))
higher a b c h = ground arith

above_minus_one : (v : ℤ) → pos 0 ≤ℤ v → ltb_ℤ (negsuc 0) v ≡ true
above_minus_one v h = ground arith

new_latest : (vm : VersionManager) (m : Manifest) → (m.version ≤ℤ (add_version m vm).latest_version)
unfolding add_version
new_latest vm m = ground arith

empty_cache : (vm : VersionManager) → IsEmpty vm → vm ≡ new_version_manager vm.max_versions
unfolding new_version_manager
empty_cache vm e = λ i. record {
  manifests = e.none_cached i;
  latest_version = e.no_latest i;
  max_versions = vm.max_versions;
}

get-put_self :
    (m : Manifest) (c : List (ℤ × Manifest))
    → Dict.get ℤ_discrete m.version (Dict.put ℤ_discrete m.version m c) ≡ some m
get-put_self m c =
    Dict.get-put ℤ_discrete m.version m.version m c
    ∙ if_pos (ℤ_discrete m.version m.version) refl (some m) (Dict.get ℤ_discrete m.version c)

get-put_other :
    (v : ℤ) (m : Manifest) (c : List (ℤ × Manifest))
    → m.version ≢ v
    → Dict.get ℤ_discrete v (Dict.put ℤ_discrete m.version m c) ≡ Dict.get ℤ_discrete v c
get-put_other v m c ne =
    Dict.get-put ℤ_discrete m.version v m c
    ∙ if_neg (ℤ_discrete m.version v) ne (some m) (Dict.get ℤ_discrete v c)

Has-put :
    (v : ℤ) (m : Manifest) (c : List (ℤ × Manifest))
    → Has v c
    → Has (if ltb_ℤ v m.version then m.version else v) (Dict.put ℤ_discrete m.version m c)
Has-put v m c h = elim (Bool-cases (ltb_ℤ v m.version)) [
  | inl up ↦ rw up (m, get-put_self m c)
  | inr stay ↦ rw stay (elim (dec_cases (ℤ_discrete m.version v)) [
    | inl same ↦ (
      m,
      ap (λ w. Dict.get ℤ_discrete w (Dict.put ℤ_discrete m.version m c)) (sym same)
          ∙ get-put_self m c,
    )
    | inr ne ↦ (h.0, get-put_other v m c ne ∙ h.1)
  ])
]

first-IsLive :
    (max : ℤ) (m : Manifest) → pos 0 ≤ℤ m.version → IsLive (add_version m (new_version_manager max))
unfolding add_version new_version_manager Dict.put
first-IsLive max m nonneg = rw (above_minus_one m.version nonneg) (record {
  distinct = (tt, tt);
  bounds = ((nonneg, omega arith), tt);
  current = (m, get-put_self m []);
})

-- Publishing makes any cache live, before the eviction.
add_version-IsLive :
    (vm : VersionManager) (m : Manifest)
    → pos 0 ≤ℤ m.version
    → IsCache vm
    → IsLive (add_version m vm)
unfolding add_version
add_version-IsLive vm m nonneg (inl e) =
    subst (λ c. IsLive (add_version m c)) (sym (empty_cache vm e))
      (first-IsLive vm.max_versions m nonneg)
add_version-IsLive vm m nonneg (inr h) = record {
  distinct = Dict.put-Distinct ℤ_discrete m.version m vm.manifests h.distinct;
  bounds =
      Dict.All-keys-put ℤ_discrete _ m.version m vm.manifests (nonneg, ground arith)
        (All_imp _ _ (higher vm.latest_version m.version) (keys vm.manifests) h.bounds);
  current = Has-put vm.latest_version m vm.manifests h.current;
}

All_both : (P Q : ℤ → Type 0) (l : List ℤ) → All P l → All Q l → All (λ v. P v × Q v) l
All_both P Q [] p q = tt
All_both P Q (x ∷ l) p q = ((p.0, q.0), All_both P Q l p.1 q.1)

cache-Distinct : (vm : VersionManager) → IsCache vm → Distinct (keys vm.manifests)
cache-Distinct vm (inl e) = subst (λ c. Distinct (keys c)) (sym e.none_cached) tt
cache-Distinct vm (inr h) = h.distinct

cache_nonneg : (vm : VersionManager) → IsCache vm → All (λ v. pos 0 ≤ℤ v) (keys vm.manifests)
cache_nonneg vm (inl e) = subst (λ c. All (λ v. pos 0 ≤ℤ v) (keys c)) (sym e.none_cached) tt
cache_nonneg vm (inr h) = All_imp _ _ (λ v b. b.0) (keys vm.manifests) h.bounds

not_eqb : (a b : ℤ) → eqb_ℤ a b ≡ false → a ≢ b
not_eqb a b h e = ground arith

other_removed :
    (vm : VersionManager) (v : ℤ)
    → eqb_ℤ v vm.latest_version ≡ false
    → IsCache vm
    → IsCache (record vm { manifests = Dict.delete ℤ_discrete v vm.manifests })
other_removed vm v e (inl h) = inl (record {
  none_cached = ap (Dict.delete ℤ_discrete v) h.none_cached ∙ (unfold Dict.delete in refl);
  no_latest = h.no_latest;
})
other_removed vm v e (inr h) = inr (delete-IsLive vm v (not_eqb v vm.latest_version e) h)

latest_nonneg : (vm : VersionManager) → IsLive vm → ltb_ℤ vm.latest_version (pos 0) ≡ false
latest_nonneg vm h =
    let (nonneg, _) =
      All_at (λ v. (pos 0 ≤ℤ v) × (v ≤ℤ vm.latest_version)) vm.latest_version vm.manifests h.bounds
        h.current in
    not_below_zero vm.latest_version nonneg
  where
    not_below_zero : (v : ℤ) → pos 0 ≤ℤ v → ltb_ℤ v (pos 0) ≡ false
    not_below_zero v le = ground arith

latest_of_live : (vm : VersionManager) → IsLive vm → latest vm ≡ get_version vm.latest_version vm
unfolding latest get_version
latest_of_live vm h = rw (latest_nonneg vm h)

latest_version-add_version :
    (vm : VersionManager) (m : Manifest)
    → ltb_ℤ vm.latest_version m.version ≡ true
    → (add_version m vm).latest_version ≡ m.version
unfolding add_version
latest_version-add_version vm m up = rw up

get_version-add_version :
    (vm : VersionManager) (m : Manifest) → get_version m.version (add_version m vm) ≡ some m
unfolding add_version get_version
get_version-add_version vm m = get-put_self m vm.manifests

has_found :
    (vm : VersionManager) (v : ℤ) (x : Manifest)
    → Dict.get ℤ_discrete v vm.manifests ≡ some x
    → get_version v vm ≡ some x
unfolding get_version
has_found vm v x e = e

module _ (s : Sorter ℤ ltb_ℤ) where
  limit_on :
      (n : ℕ) (vm : VersionManager)
      → 0 < n
      → evict_limit s (pos n) vm ≡ evict_loop s (length vm.manifests) n vm
  unfolding evict_limit
  limit_on n vm h = rw (lt→ltb 0 n h)

  evict_limited :
      (n : ℕ) (vm : VersionManager)
      → vm.max_versions ≡ pos n
      → 0 < n
      → evict s vm ≡ evict_loop s (length vm.manifests) n vm
  unfolding evict
  evict_limited n vm e h = ap (λ z. evict_limit s z vm) e ∙ limit_on n vm h

  -- A manifest that is published with a version of at least 0, on a well-formed cache with a
  -- limit n over 0, leaves a live cache of n versions at most, with the latest version that it
  -- had once the manifest was added. What is gone was lower than all that is left, and what is
  -- left is as it was published.
  pub publish-IsEvicted :
      (n : ℕ) (vm : VersionManager) (m : Manifest)
      → IsCache vm
      → pos 0 ≤ℤ m.version
      → vm.max_versions ≡ pos n
      → 0 < n
      → IsEvicted n (add_version m vm) (publish s m vm)
  unfolding publish add_version
  publish-IsEvicted n vm m h nonneg e room = rw (evict_limited n (add_version m vm) e room) (
      evict_loop-IsEvicted s (length (add_version m vm).manifests) n (add_version m vm) room
        (omega arith) (add_version-IsLive vm m nonneg h))

  -- After a manifest with a version of at least 0 that is over the latest one is published, on a
  -- well-formed cache with a limit over 0, `Latest` returns it, whatever was evicted.
  pub latest-publish :
      (n : ℕ) (vm : VersionManager) (m : Manifest)
      → IsCache vm
      → pos 0 ≤ℤ m.version
      → vm.max_versions ≡ pos n
      → 0 < n
      → ltb_ℤ vm.latest_version m.version ≡ true
      → latest (publish s m vm) ≡ some m
  latest-publish n vm m h nonneg e room up =
      let r = publish-IsEvicted n vm m h nonneg e room in
      let top = r.same_latest ∙ latest_version-add_version vm m up in
      let (x, found) = r.live.current in
      let there =
        has_found (publish s m vm) m.version x
          (ap (λ v. Dict.get ℤ_discrete v (publish s m vm).manifests) (sym top) ∙ found) in
      latest_of_live (publish s m vm) r.live
      ∙ (ap (λ v. get_version v (publish s m vm)) top
          ∙ (there ∙ (sym (r.kept m.version x there) ∙ get_version-add_version vm m)))

  relatest :
      (max : ℤ) (c : List (ℤ × Manifest))
      → Distinct (keys c)
      → All (λ v. pos 0 ≤ℤ v) (keys c)
      → IsCache (record {
        manifests = c;
        latest_version = last_or (negsuc 0) (s.slice (keys c));
        max_versions = max;
      })
  relatest max [] d p =
      inl (record { none_cached = refl; no_latest = ap (last_or (negsuc 0)) (slice-nil s) })
  relatest max (x ∷ c) d p = inr (record {
    distinct = d;
    bounds = All_both _ _ (keys (x ∷ c)) p (last-ge s (negsuc 0) (keys (x ∷ c)));
    current = Has-of_mem _ (x ∷ c) (slice_last-mem s (negsuc 0) x.0 (keys c));
  })

  remove_latest :
      (vm : VersionManager) (v : ℤ)
      → eqb_ℤ v vm.latest_version ≡ true
      → remove_version s v vm ≡ record {
        manifests = Dict.delete ℤ_discrete v vm.manifests;
        latest_version =
            last_or (negsuc 0) (s.slice (keys (Dict.delete ℤ_discrete v vm.manifests)));
        max_versions = vm.max_versions;
      }
  unfolding remove_version recompute_latest
  remove_latest vm v e = rw (e, remove_version)

  remove_other :
      (vm : VersionManager) (v : ℤ)
      → eqb_ℤ v vm.latest_version ≡ false
      → remove_version s v vm ≡ record vm { manifests = Dict.delete ℤ_discrete v vm.manifests }
  unfolding remove_version
  remove_other vm v e = rw (e, remove_version)

  -- `Remove` keeps a well-formed cache well formed: where the version that is removed is the latest, the
  -- highest that is left takes its place, or -1 if none is left.
  pub remove_version-IsCache :
      (vm : VersionManager) (v : ℤ) → IsCache vm → IsCache (remove_version s v vm)
  remove_version-IsCache vm v h = elim (Bool-cases (eqb_ℤ v vm.latest_version)) [
    | inl e ↦ rw (remove_latest vm v e) (
        relatest vm.max_versions (Dict.delete ℤ_discrete v vm.manifests)
          (Dict.delete-Distinct ℤ_discrete v vm.manifests (cache-Distinct vm h))
          (Dict.All-keys-delete ℤ_discrete (λ w. pos 0 ≤ℤ w) v vm.manifests (cache_nonneg vm h)))
    | inr e ↦ rw (remove_other vm v e) (other_removed vm v e h)
  ]
