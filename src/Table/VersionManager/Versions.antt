-- ===== src/Table/VersionManager/Versions.antt =====
-- The first and the last of the sorted versions of table/version_manager.go.
use golance_db.Prelude.{◌≡◌, refl, Bool, true, false, List, [], ◌∷◌, All, arith, Mem, ◌≢◌}
use golance_db.Prelude.Int.{ℤ, ltb_ℤ, ◌≤ℤ◌}
use golance_db.Prelude.Sort.{Sorter, IsSorted, IsWeakOrder}
use golance_db.Prelude.Perms.{All-perm}
use golance_db.Table.VersionManager.{first_or, last_or}
use mathlib.Core.List.Perm
use mathlib.Core.List.{mem-cons_self, mem-cons_of_mem, not-mem-nil}
use mathlib.Core.Path.{subst}
use native.Mathlib.Bridge.{le_prop}

pub ltb_ℤ-IsWeakOrder : IsWeakOrder (λ _. true) ltb_ℤ
ltb_ℤ-IsWeakOrder = record {
  asymm = λ a b _ _ h. ground arith;
  not_less_trans = λ a b c _ _ _ h k. ground arith;
}

all_true : (l : List ℤ) → All (λ a. ◌≡◌ {A = Bool} true true) l
all_true [] = tt
all_true (v ∷ vs) = (refl, all_true vs)

not_less_le : (a b : ℤ) → ltb_ℤ b a ≡ false → a ≤ℤ b
not_less_le a b h = ground arith

first_below : (v : ℤ) (vs : List ℤ) → All (λ y. ltb_ℤ y v ≡ false) vs → All (λ y. v ≤ℤ y) vs
first_below v [] p = tt
first_below v (y ∷ ys) p = (not_less_le v y p.0, first_below v ys p.1)

last_above :
    (d : ℤ) (vs : List ℤ)
    → All (λ y. ltb_ℤ y d ≡ false) vs
    → IsSorted ltb_ℤ vs
    → (d ≤ℤ last_or d vs) × All (λ y. y ≤ℤ last_or d vs) vs
last_above d [] p s = (omega arith, tt)
last_above d (y ∷ ys) p s =
    let (le, rest) = last_above y ys s.0 s.1 in
    let below = not_less_le d y p.0 in (omega arith, (le, rest))

last-mem : (d : ℤ) (vs : List ℤ) → Mem (last_or d vs) (d ∷ vs)
last-mem d [] = mem-cons_self
last-mem d (y ∷ ys) = mem-cons_of_mem d (last-mem y ys)

module _ (s : Sorter ℤ ltb_ℤ) where
  sorted : (l : List ℤ) → IsSorted ltb_ℤ (s.slice l)
  sorted l = s.slice-IsSorted (λ _. true) ltb_ℤ-IsWeakOrder l (all_true l)

  first_or-le : (d : ℤ) (vs : List ℤ) → IsSorted ltb_ℤ vs → All (λ y. first_or d vs ≤ℤ y) vs
  first_or-le d [] h = tt
  first_or-le d (v ∷ vs) h = (omega arith, first_below v vs h.0)

  last_or-ge : (d : ℤ) (vs : List ℤ) → IsSorted ltb_ℤ vs → All (λ y. y ≤ℤ last_or d vs) vs
  last_or-ge d [] h = tt
  last_or-ge d (v ∷ vs) h = let (le, rest) = last_above v vs h.0 h.1 in (le, rest)

  -- No version lies below the first of the sorted slice, or above the last.
  pub first-le : (d : ℤ) (l : List ℤ) → All (λ y. first_or d (s.slice l) ≤ℤ y) l
  first-le d l =
      All-perm (λ y. first_or d (s.slice l) ≤ℤ y) (λ y. le_prop) (s.slice l) l (s.slice-perm l)
        (first_or-le d (s.slice l) (sorted l))

  pub last-ge : (d : ℤ) (l : List ℤ) → All (λ y. y ≤ℤ last_or d (s.slice l)) l
  last-ge d l =
      All-perm (λ y. y ≤ℤ last_or d (s.slice l)) (λ y. le_prop) (s.slice l) l (s.slice-perm l)
        (last_or-ge d (s.slice l) (sorted l))

  slice-nonempty : (x : ℤ) (xs : List ℤ) → s.slice (x ∷ xs) ≢ []
  slice-nonempty x xs e =
      not-mem-nil (subst (Mem x) e ((Perm.mem_iff (s.slice-perm (x ∷ xs))).1 mem-cons_self))

  first-mem_of : (d : ℤ) (vs : List ℤ) → vs ≢ [] → Mem (first_or d vs) vs
  first-mem_of d [] h = absurd (h refl)
  first-mem_of d (v ∷ vs) h = mem-cons_self

  last-mem_of : (d : ℤ) (vs : List ℤ) → vs ≢ [] → Mem (last_or d vs) vs
  last-mem_of d [] h = absurd (h refl)
  last-mem_of d (v ∷ vs) h = last-mem v vs

  -- Both are versions of a list that is not empty.
  pub first-mem : (d x : ℤ) (xs : List ℤ) → Mem (first_or d (s.slice (x ∷ xs))) (x ∷ xs)
  first-mem d x xs =
      (Perm.mem_iff (s.slice-perm (x ∷ xs))).0
        (first-mem_of d (s.slice (x ∷ xs)) (slice-nonempty x xs))

  pub slice_last-mem : (d x : ℤ) (xs : List ℤ) → Mem (last_or d (s.slice (x ∷ xs))) (x ∷ xs)
  slice_last-mem d x xs =
      (Perm.mem_iff (s.slice-perm (x ∷ xs))).0
        (last-mem_of d (s.slice (x ∷ xs)) (slice-nonempty x xs))

  pub slice-nil : s.slice [] ≡ []
  slice-nil = none_in (s.slice []) (λ x m. not-mem-nil ((Perm.mem_iff (s.slice-perm [])).0 m))
    where
      none_in : (l : List ℤ) → ((x : ℤ) → Mem x l → ⊥) → l ≡ []
      none_in [] f = refl
      none_in (x ∷ l) f = absurd (f x mem-cons_self)
