-- ===== src/Prelude/Sort.antt =====
-- Go's `sort.Slice`, known by what it documents: the result is a permutation of the slice, and
-- it is ascending where the test is a strict weak order. Equal elements may change places.
use golance_db.Prelude.Tests.{if◌then◌else◌, Bool-cases}
use golance_db.Prelude.Lists.{All}
use golance_db.Prelude.Perms.{All-perm}
use mathlib.Core.Path.{◌≡◌}
use mathlib.Core.Logic.{inl, inr}
use mathlib.Core.Bool.{Bool, true, false}
use mathlib.Core.Bool.{Bool-set}
use mathlib.Core.List.{List, [], ◌∷◌, Perm}
use mathlib.Core.List.Perm

-- No later element is less than an earlier one.
abbrev pub IsSorted {ℓ} : {A : Type ℓ} → (A → A → Bool) → List A → Type 0
IsSorted less [] = Unit
IsSorted less (x ∷ xs) = All (λ y. less y x ≡ false) xs × IsSorted less xs

-- `less` is a strict weak order on the elements that `valid` admits.
pub record IsWeakOrder {ℓ} {A : Type ℓ} (valid : A → Bool) (less : A → A → Bool) : Type ℓ where
  pub asymm : (a b : A) → valid a ≡ true → valid b ≡ true → less a b ≡ true → less b a ≡ false
  pub not_less_trans :
      (a b c : A)
      → valid a ≡ true
      → valid b ≡ true
      → valid c ≡ true
      → less b a ≡ false
      → less c b ≡ false
      → less c a ≡ false

pub record Sorter {ℓ} (A : Type ℓ) (less : A → A → Bool) : Type ℓ where
  pub slice : List A → List A
  pub slice-perm : (l : List A) → Perm (slice l) l
  pub slice-IsSorted :
      (valid : A → Bool)
      → IsWeakOrder valid less
      → (l : List A) → All (λ a. valid a ≡ true) l
      → IsSorted less (slice l)

-- Insertion sort is such a sort.
module _ {ℓ} {A : Type ℓ} (less : A → A → Bool) where
  unfoldable pub insert : A → List A → List A
  insert x [] = x ∷ []
  insert x (y ∷ ys) = let rest = insert x ys in if less y x then y ∷ rest else x ∷ y ∷ ys

  unfoldable pub insertion_sort : List A → List A
  unfolding insert
  insertion_sort [] = []
  insertion_sort (x ∷ xs) = insert x (insertion_sort xs)

  insert-perm : (x : A) (l : List A) → Perm (insert x l) (x ∷ l)
  unfolding insert
  insert-perm x [] = Perm.refl _
  insert-perm x (y ∷ ys) = elim (Bool-cases (less y x)) [
    | inl e ↦ rw e (Perm.trans (Perm.cons y (insert-perm x ys)) (Perm.swap x y ys))
    | inr e ↦ rw e (Perm.refl _)
  ]

  pub insertion_sort-perm : (l : List A) → Perm (insertion_sort l) l
  unfolding insertion_sort
  insertion_sort-perm [] = Perm.refl _
  insertion_sort-perm (x ∷ xs) =
      Perm.trans (insert-perm x (insertion_sort xs)) (Perm.cons x (insertion_sort-perm xs))

  All-insert {κ} : (P : A → Type κ) (x : A) (l : List A) → P x → All P l → All P (insert x l)
  unfolding insert
  All-insert P x [] p q = (p, tt)
  All-insert P x (y ∷ ys) p q = elim (Bool-cases (less y x)) [
    | inl e ↦ rw e (q.0, All-insert P x ys p q.1)
    | inr e ↦ rw e (p, q)
  ]

  module _ (valid : A → Bool) (w : IsWeakOrder valid less) where
    all_not_less :
        (x y : A) (l : List A)
        → valid x ≡ true
        → valid y ≡ true
        → All (λ a. valid a ≡ true) l
        → less y x ≡ false
        → All (λ z. less z y ≡ false) l
        → All (λ z. less z x ≡ false) l
    all_not_less x y [] vx vy vl h p = tt
    all_not_less x y (z ∷ l) vx vy vl h p =
        (w.not_less_trans x y z vx vy vl.0 h p.0, all_not_less x y l vx vy vl.1 h p.1)

    insert-IsSorted :
        (x : A) (l : List A)
        → valid x ≡ true
        → All (λ a. valid a ≡ true) l
        → IsSorted less l
        → IsSorted less (insert x l)
    unfolding insert
    insert-IsSorted x [] vx vl s = (tt, tt)
    insert-IsSorted x (y ∷ ys) vx vl s = elim (Bool-cases (less y x)) [
      | inl e ↦
          rw e (All-insert _ x ys (w.asymm y x vl.0 vx e) s.0, insert-IsSorted x ys vx vl.1 s.1)
      | inr e ↦ rw e ((e, all_not_less x y ys vx vl.0 vl.1 e s.0), s)
    ]

    pub insertion_sort-IsSorted :
        (l : List A) → All (λ a. valid a ≡ true) l → IsSorted less (insertion_sort l)
    unfolding insertion_sort
    insertion_sort-IsSorted [] v = tt
    insertion_sort-IsSorted (x ∷ xs) v =
        insert-IsSorted x (insertion_sort xs) v.0
          (All-perm (λ a. valid a ≡ true) (λ a. Bool-set _ _) xs (insertion_sort xs)
            (Perm.symm (insertion_sort-perm xs)) v.1)
          (insertion_sort-IsSorted xs v.1)

abbrev pub insertion_sorter {ℓ} : {A : Type ℓ} (less : A → A → Bool) → Sorter A less
insertion_sorter less = record {
  slice = insertion_sort less;
  slice-perm = insertion_sort-perm less;
  slice-IsSorted = insertion_sort-IsSorted less;
}
