-- ===== src/Prelude/Perms.antt =====
-- Predicates on all elements, along a permutation.
use golance_db.Prelude.Lists.{All}
use mathlib.Core.List.{
  List, [], ◌∷◌, Perm, Mem, mem-cons_self, mem-cons_of_mem, eq-or-mem_of_mem-cons, not-mem-nil,
}
use mathlib.Core.List.Perm
use golance_db.Prelude.Lists.{length}
use mathlib.Core.Path.{◌≡◌, subst, sym, refl, ap, ◌∙◌}
use Prim.Native.Nat.{suc}
use native.Mathlib.Bridge.{from_ℕ}
use mathlib.Core.List
use mathlib.Core.Logic.Or

module _ {ℓ κ} {A : Type ℓ} (P : A → Type κ) where
  pub All_of_mem : (xs : List A) → ((a : A) → Mem a xs → P a) → All P xs
  All_of_mem [] f = tt
  All_of_mem (x ∷ xs) f = (f x mem-cons_self, All_of_mem xs (λ a m. f a (mem-cons_of_mem x m)))

  module _ (P_prop : (a : A) → IsProp (P a)) where
    pub All-mem : (xs : List A) → All P xs → (a : A) → Mem a xs → P a
    All-mem [] p a m = absurd (not-mem-nil m)
    All-mem (x ∷ xs) p a m =
        Or.elim (P_prop a) (eq-or-mem_of_mem-cons m) (λ e. subst P (sym e) p.0)
          (λ m'. All-mem xs p.1 a m')

    pub All-perm : (xs ys : List A) → Perm xs ys → All P xs → All P ys
    All-perm xs ys h p = All_of_mem ys (λ a m. All-mem xs p a ((Perm.mem_iff h).1 m))

length_from {ℓ} : {A : Type ℓ} (xs : List A) → length xs ≡ from_ℕ (List.length xs)
length_from [] = refl
length_from (x ∷ xs) = ap suc (length_from xs)

pub length-perm {ℓ} : {A : Type ℓ} (xs ys : List A) → Perm xs ys → length xs ≡ length ys
length-perm xs ys h = length_from xs ∙ ap from_ℕ (Perm.length-eq h) ∙ sym (length_from ys)
