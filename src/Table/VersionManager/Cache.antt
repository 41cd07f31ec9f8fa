-- ===== src/Table/VersionManager/Cache.antt =====
-- The cache of table/version_manager.go: its invariant, and what an eviction may take.
use golance_db.Prelude.{
  ℕ, zero, suc, ◌+◌, ◌≤◌, ◌<◌, ◌≡◌, ◌≢◌, refl, ap, sym, ◌∙◌, true, false, List, [], ◌∷◌, none, some,
  length, All, ltb, arith, Bool-cases, Option-cases, inl, inr, Mem,
}
use golance_db.Prelude.Int.{ℤ, pos, negsuc, ltb_ℤ, eqb_ℤ, ◌≤ℤ◌, ℤ_discrete, eq_of_parts, eqb_ℤ→eq}
use golance_db.Prelude.Dict
use golance_db.Prelude.Dict.{keys, Distinct}
use golance_db.Prelude.Perms.{All-mem}
use golance_db.Prelude.Sort.{Sorter}
use golance_db.Table.Types.{Manifest}
use golance_db.Table.VersionManager.{
  VersionManager, oldest_version, evict_loop, get_version, first_or,
}
use golance_db.Table.VersionManager.Versions.{first-le, first-mem}
use mathlib.Core.HLevel.{¬_prop}
use mathlib.Core.Path.{subst}
use golance_db.Prelude.Dict.{dec_cases, some_of_ite}
use mathlib.Core.Logic.{if_pos, if_neg}

-- The version is in the cache.
abbrev pub Has : ℤ → List (ℤ × Manifest) → Type 0
Has v m = (x : Manifest) × (Dict.get ℤ_discrete v m ≡ some x)

-- A cache that is not empty: each version once, none negative, and the latest is in the cache
-- and the highest.
pub record IsLive (vm : VersionManager) : Type 0 where
  pub distinct : Distinct (keys vm.manifests)
  pub bounds : All (λ v. (pos 0 ≤ℤ v) × (v ≤ℤ vm.latest_version)) (keys vm.manifests)
  pub current : Has vm.latest_version vm.manifests

pub Has-of_mem : (v : ℤ) (m : List (ℤ × Manifest)) → Mem v (keys m) → Has v m
Has-of_mem v m h = elim (Option-cases (Dict.get ℤ_discrete v m)) [
  | inr found ↦ found
  | inl e ↦
      absurd
        (All-mem (λ j. j ≢ v) (λ j. ¬_prop) (keys m) (Dict.absent_of_get ℤ_discrete v m e) v h refl)
]

Has-keys : (v : ℤ) (m : List (ℤ × Manifest)) → Has v m → keys m ≢ []
unfolding Dict.get
Has-keys v [] h e = cc (h.1)
Has-keys v (x ∷ m) h e = cc

pub All_at : (P : ℤ → Type 0) (v : ℤ) (m : List (ℤ × Manifest)) → All P (keys m) → Has v m → P v
unfolding Dict.get
All_at P v [] p h = absurd (ground (arith, h.1))
All_at P v (x ∷ m) p h = elim (ℤ_discrete x.0 v) [
  | yes e ↦ subst P e p.0
  | no e ↦
      All_at P v m p.1
        (h.0, sym (if_neg (ℤ_discrete x.0 v) e (some x.1) (Dict.get ℤ_discrete v m)) ∙ h.1)
]

ltb-false_le : (n m : ℕ) → ltb n m ≡ false → m ≤ n
ltb-false_le n m h = ground arith

All-keys-delete :
    (P : ℤ → Type 0) (v : ℤ) (m : List (ℤ × Manifest))
    → All P (keys m)
    → All P (keys (Dict.delete ℤ_discrete v m))
unfolding Dict.delete
All-keys-delete P v [] p = tt
All-keys-delete P v (x ∷ m) p = elim (dec_cases (ℤ_discrete x.0 v)) [
  | inl e ↦ rw (if_pos (ℤ_discrete x.0 v) e) p.1
  | inr e ↦ rw (if_neg (ℤ_discrete x.0 v) e) (p.0, All-keys-delete P v m p.1)
]

-- A list of distinct versions that are all the same has one at most.
one_at_most : (a : ℤ) (l : List ℤ) → Distinct l → All (λ y. (a ≤ℤ y) × (y ≤ℤ a)) l → length l ≤ 1
one_at_most a [] d p = omega arith
one_at_most a (x ∷ []) d p = omega arith
one_at_most a (x ∷ y ∷ l) d p = absurd (d.0.0 (eq_of_parts y x (omega arith)))

length-keys : (m : List (ℤ × Manifest)) → length (keys m) ≡ length m
length-keys [] = refl
length-keys (x ∷ m) = ap suc (length-keys m)

-- Deleting the oldest version, which is not the latest, leaves the cache live.
pub delete-IsLive :
    (vm : VersionManager) (v : ℤ)
    → v ≢ vm.latest_version
    → IsLive vm
    → IsLive (record vm { manifests = Dict.delete ℤ_discrete v vm.manifests })
delete-IsLive vm v ne h = record {
  distinct = Dict.delete-Distinct ℤ_discrete v vm.manifests h.distinct;
  bounds = All-keys-delete _ v vm.manifests h.bounds;
  current = (
    h.current.0,
    Dict.get-delete ℤ_discrete v vm.latest_version vm.manifests h.distinct
        ∙ (if_neg (ℤ_discrete v vm.latest_version) ne none
              (Dict.get ℤ_discrete vm.latest_version vm.manifests)
            ∙ h.current.1),
  );
}

-- What an eviction promises: a live cache with the same latest version, no longer than n, where
-- each version that is left has its manifest, and each that is gone was lower than all of these.
pub record IsEvicted (n : ℕ) (before after : VersionManager) : Type 0 where
  pub live : IsLive after
  pub same_latest : after.latest_version ≡ before.latest_version
  pub fits : length after.manifests ≤ n
  pub kept : (w : ℤ) (x : Manifest) → get_version w after ≡ some x → get_version w before ≡ some x
  pub lowest :
      (v w : ℤ) (x y : Manifest)
      → get_version v before ≡ some x
      → get_version v after ≡ none
      → get_version w after ≡ some y
      → (v ≤ℤ w) × (v ≢ w)

module _ (s : Sorter ℤ ltb_ℤ) where
  oldest-Has :
      (vm : VersionManager) (v : ℤ) → Has v vm.manifests → Has (oldest_version s vm) vm.manifests
  unfolding oldest_version
  oldest-Has vm v h = oldest_of vm.manifests (Has-keys v vm.manifests h)
    where
      oldest_of :
          (m : List (ℤ × Manifest)) → keys m ≢ [] → Has (first_or (negsuc 0) (s.slice (keys m))) m
      oldest_of [] ne = absurd (ne refl)
      oldest_of (x ∷ m) ne =
          Has-of_mem (first_or (negsuc 0) (s.slice (keys (x ∷ m)))) (x ∷ m)
            (first-mem s (negsuc 0) x.0 (keys m))

  oldest-le : (vm : VersionManager) → All (λ v. oldest_version s vm ≤ℤ v) (keys vm.manifests)
  unfolding oldest_version
  oldest-le vm = first-le s (negsuc 0) (keys vm.manifests)

  evict_done :
      (n : ℕ) (vm : VersionManager) → IsLive vm → length vm.manifests ≤ n → IsEvicted n vm vm
  evict_done n vm h fit = record {
    live = h;
    same_latest = refl;
    fits = fit;
    kept = λ w x e. e;
    lowest = λ v w x y e gone k. cc;
  }

  module _ (vm : VersionManager) (h : IsLive vm) where
    -- If the oldest version is the latest there is only one.
    single : oldest_version s vm ≡ vm.latest_version → length vm.manifests ≤ 1
    single e = omega (
      arith,
      length-keys vm.manifests,
      one_at_most vm.latest_version (keys vm.manifests) h.distinct (
          both (keys vm.manifests)
            (subst (λ o. All (λ v. o ≤ℤ v) (keys vm.manifests)) e (oldest-le vm)) h.bounds),
    )
      where
        both :
            (l : List ℤ)
            → All (λ v. vm.latest_version ≤ℤ v) l
            → All (λ v. (pos 0 ≤ℤ v) × (v ≤ℤ vm.latest_version)) l
            → All (λ v. (vm.latest_version ≤ℤ v) × (v ≤ℤ vm.latest_version)) l
        both [] p q = tt
        both (x ∷ l) p q = ((p.0, q.0.1), both l p.1 q.1)

    older : (v : ℤ) → Has v vm.manifests → oldest_version s vm ≤ℤ v
    older v has = All_at (λ v. oldest_version s vm ≤ℤ v) v vm.manifests (oldest-le vm) has

  abbrev without_oldest : VersionManager → VersionManager
  without_oldest vm = record vm {
    manifests = Dict.delete ℤ_discrete (oldest_version s vm) vm.manifests;
  }

  -- What is left without the oldest was there, and is not the oldest.
  left_of :
      (vm : VersionManager) (w : ℤ) (x : Manifest)
      → IsLive vm
      → get_version w (without_oldest vm) ≡ some x
      → (oldest_version s vm ≢ w) × (get_version w vm ≡ some x)
  unfolding get_version
  left_of vm w x h e =
      some_of_ite (ℤ_discrete (oldest_version s vm) w) (Dict.get ℤ_discrete w vm.manifests)
        (sym (Dict.get-delete ℤ_discrete (oldest_version s vm) w vm.manifests h.distinct) ∙ e)

  left_in :
      (vm : VersionManager) (v : ℤ) (x : Manifest)
      → IsLive vm
      → oldest_version s vm ≢ v
      → get_version v vm ≡ some x
      → get_version v (without_oldest vm) ≡ some x
  unfolding get_version
  left_in vm v x h ne e =
      Dict.get-delete ℤ_discrete (oldest_version s vm) v vm.manifests h.distinct
      ∙ (if_neg (ℤ_discrete (oldest_version s vm) v) ne none (Dict.get ℤ_discrete v vm.manifests)
          ∙ e)

  Has-version_of :
      (vm : VersionManager) (w : ℤ) (x : Manifest) → get_version w vm ≡ some x → Has w vm.manifests
  unfolding get_version
  Has-version_of vm w x e = (x, e)

  evict_round :
      (n : ℕ) (vm after : VersionManager)
      → IsLive vm
      → IsEvicted n (without_oldest vm) after
      → IsEvicted n vm after
  evict_round n vm after h r = record {
    live = r.live;
    same_latest = r.same_latest;
    fits = r.fits;
    kept = λ w x e. (left_of vm w x h (r.kept w x e)).1;
    lowest = λ v w x y e gone k. elim (dec_cases (ℤ_discrete (oldest_version s vm) v)) [
      | inl same ↦
          let (ne, there) = left_of vm w y h (r.kept w y k) in
          subst (λ z. (z ≤ℤ w) × (z ≢ w)) same (older vm h w (Has-version_of vm w y there), ne)
      | inr ne ↦ r.lowest v w x y (left_in vm v x h ne e) gone k
    ];
  }

  module _ (fuel n : ℕ) (vm : VersionManager) where
    loop_fits : ltb n (length vm.manifests) ≡ false → evict_loop s (suc fuel) n vm ≡ vm
    unfolding evict_loop
    loop_fits h = rw h

    loop_single :
        ltb n (length vm.manifests) ≡ true
        → eqb_ℤ (oldest_version s vm) vm.latest_version ≡ true
        → evict_loop s (suc fuel) n vm ≡ vm
    unfolding evict_loop
    loop_single h e = rw (h, e)

    loop_step :
        ltb n (length vm.manifests) ≡ true
        → eqb_ℤ (oldest_version s vm) vm.latest_version ≡ false
        → evict_loop s (suc fuel) n vm ≡ evict_loop s fuel n (without_oldest vm)
    unfolding evict_loop
    loop_step h e = rw (h, e)

  not_eqb : (a b : ℤ) → eqb_ℤ a b ≡ false → a ≢ b
  not_eqb a b h e = ground arith

  length-without_oldest :
      (vm : VersionManager)
      → IsLive vm
      → length (without_oldest vm).manifests + 1 ≡ length vm.manifests
  length-without_oldest vm h =
      let has = oldest-Has vm vm.latest_version h.current in
      Dict.length-delete ℤ_discrete (oldest_version s vm) has.0 vm.manifests has.1

  pub evict_loop-IsEvicted :
      (fuel n : ℕ) (vm : VersionManager)
      → 0 < n
      → length vm.manifests ≤ fuel
      → IsLive vm
      → IsEvicted n vm (evict_loop s fuel n vm)
  evict_loop-IsEvicted zero n vm some_room len h =
      unfold evict_loop in evict_done n vm h (omega arith)
  evict_loop-IsEvicted (suc fuel) n vm some_room len h =
      elim (Bool-cases (ltb n (length vm.manifests))) [
        | inr fit ↦ rw (loop_fits fuel n vm fit) (evict_done n vm h (ltb-false_le n _ fit))
        | inl over ↦ elim (Bool-cases (eqb_ℤ (oldest_version s vm) vm.latest_version)) [
          | inl e ↦
              rw (loop_single fuel n vm over e)
                (evict_done n vm h (omega (arith, single vm h (eqb_ℤ→eq _ _ e))))
          | inr e ↦ rw (loop_step fuel n vm over e) (
              evict_round n vm (evict_loop s fuel n (without_oldest vm)) h (
                evict_loop-IsEvicted fuel n (without_oldest vm) some_room
                  (omega (arith, length-without_oldest vm h))
                  (delete-IsLive vm (oldest_version s vm) (not_eqb _ _ e) h)))
        ]
      ]
