-- ===== src/Prelude/Dict.antt =====
-- Go's maps, over keys with a decidable equality: an association list with each key once. The
-- source never depends on the order in which a map is walked, but where a comment says so.
use golance_db.Prelude.Lists.{All, length}
use Prim.Native.Nat.{◌+◌}
use mathlib.Core.List.{List, [], ◌∷◌}
use mathlib.Core.Logic.{◌≢◌, ite, if_pos, if_neg, ◌⊎◌, inl, inr}
use mathlib.Core.Option.{Option, none, some}
use mathlib.Core.Path.{◌≡◌, refl, sym, subst}
use native.Mathlib.Omega.{arith}

module _ {ℓ} {K V : Type ℓ} where
  abbrev pub keys : List (K × V) → List K
  keys [] = []
  keys ((k, v) ∷ m) = k ∷ keys m

pub dec_cases : {P : Type 0} (d : Dec P) → P ⊎ (¬ P)
dec_cases (yes e) = inl e
dec_cases (no e) = inr e

pub some_of_ite :
    {P A : Type 0} (d : Dec P) (o : Option A) {a : A} → ite d none o ≡ some a → (¬ P) × (o ≡ some a)
some_of_ite (yes e) o h = cc
some_of_ite (no e) o h = (e, h)

abbrev pub Distinct {ℓ} : {K : Type ℓ} → List K → Type ℓ
Distinct [] = Unit
Distinct (k ∷ ks) = All (λ j. j ≢ k) ks × Distinct ks

module _ {ℓ} {K V : Type ℓ} (dec : Discrete K) where
  -- `v, ok := m[k]`
  unfoldable pub get : K → List (K × V) → Option V
  get k [] = none
  get k ((j, v) ∷ m) = ite (dec j k) (some v) (get k m)

  -- `m[k] = v`
  unfoldable pub put : K → V → List (K × V) → List (K × V)
  put k v [] = (k, v) ∷ []
  put k v ((j, w) ∷ m) = let rest = put k v m in ite (dec j k) ((j, v) ∷ m) ((j, w) ∷ rest)

  -- `delete(m, k)`
  unfoldable pub delete : K → List (K × V) → List (K × V)
  delete k [] = []
  delete k ((j, w) ∷ m) = let rest = delete k m in ite (dec j k) m ((j, w) ∷ rest)

  pub get-put :
      (k j : K) (v : V) (m : List (K × V)) → get j (put k v m) ≡ ite (dec k j) (some v) (get j m)
  unfolding get put
  get-put k j v [] = refl
  get-put k j v ((i, w) ∷ m) = ground (arith, get-put k j v m)

  pub get_absent : (k : K) (m : List (K × V)) → All (λ j. j ≢ k) (keys m) → get k m ≡ none
  unfolding get
  get_absent k [] p = refl
  get_absent k ((j, v) ∷ m) p = rw (if_neg _ p.0) (get_absent k m p.1)

  pub absent_of_get : (k : K) (m : List (K × V)) → get k m ≡ none → All (λ j. j ≢ k) (keys m)
  unfolding get
  absent_of_get k [] p = tt
  absent_of_get k ((j, v) ∷ m) p = elim (dec j k) [
    | yes e ↦ absurd (ground arith)
    | no e ↦ (e, absent_of_get k m (ground arith))
  ]

  pub get-delete :
      (k j : K) (m : List (K × V))
      → Distinct (keys m)
      → get j (delete k m) ≡ ite (dec k j) none (get j m)
  unfolding get delete
  get-delete k j [] d = ground arith
  get-delete k j ((i, w) ∷ m) d = elim (dec i k) [
    | yes e ↦ rw (if_pos _ e) (elim (dec k j) [
      | yes f ↦
          rw (if_pos _ f) (rw (← f) (get_absent k m (subst (λ a. All (λ x. x ≢ a) (keys m)) e d.0)))
      | no f ↦ ground arith
    ])
    | no e ↦ ground (arith, get-delete k j m d.1)
  ]

  pub All-keys-put {μ} :
      (P : K → Type μ) (k : K) (v : V) (m : List (K × V))
      → P k
      → All P (keys m)
      → All P (keys (put k v m))
  unfolding put
  All-keys-put P k v [] p q = (p, tt)
  All-keys-put P k v ((i, w) ∷ m) p q = elim (dec i k) [
    | yes e ↦ rw (if_pos _ e) q
    | no e ↦ rw (if_neg _ e) (q.0, All-keys-put P k v m p q.1)
  ]

  pub All-keys-delete {μ} :
      (P : K → Type μ) (k : K) (m : List (K × V)) → All P (keys m) → All P (keys (delete k m))
  unfolding delete
  All-keys-delete P k [] q = tt
  All-keys-delete P k ((i, w) ∷ m) q = elim (dec i k) [
    | yes e ↦ rw (if_pos _ e) q.1
    | no e ↦ rw (if_neg _ e) (q.0, All-keys-delete P k m q.1)
  ]

  pub put-Distinct :
      (k : K) (v : V) (m : List (K × V)) → Distinct (keys m) → Distinct (keys (put k v m))
  unfolding put
  put-Distinct k v [] d = (tt, tt)
  put-Distinct k v ((i, w) ∷ m) d = elim (dec i k) [
    | yes e ↦ rw (if_pos _ e) d
    | no e ↦
        rw (if_neg _ e)
          (All-keys-put (λ j. j ≢ i) k v m (λ p. e (sym p)) d.0, put-Distinct k v m d.1)
  ]

  pub delete-Distinct :
      (k : K) (m : List (K × V)) → Distinct (keys m) → Distinct (keys (delete k m))
  unfolding delete
  delete-Distinct k [] d = tt
  delete-Distinct k ((i, w) ∷ m) d = elim (dec i k) [
    | yes e ↦ rw (if_pos _ e) d.1
    | no e ↦ rw (if_neg _ e) (All-keys-delete (λ j. j ≢ i) k m d.0, delete-Distinct k m d.1)
  ]

  pub length-put_new :
      (k : K) (v : V) (m : List (K × V)) → get k m ≡ none → length (put k v m) ≡ length m + 1
  unfolding get put
  length-put_new k v [] h = omega arith
  length-put_new k v ((i, w) ∷ m) h = ground (arith, length-put_new k v m)

  pub length-put_old :
      (k : K) (v w : V) (m : List (K × V)) → get k m ≡ some w → length (put k v m) ≡ length m
  unfolding get put
  length-put_old k v w [] h = cc
  length-put_old k v w ((i, u) ∷ m) h = ground (arith, length-put_old k v w m)

  pub length-delete :
      (k : K) (w : V) (m : List (K × V)) → get k m ≡ some w → length (delete k m) + 1 ≡ length m
  unfolding get delete
  length-delete k w [] h = cc
  length-delete k w ((i, u) ∷ m) h = ground (arith, length-delete k w m)
