-- ===== src/Distance/TopK.antt =====
-- `TopK` of distance/distance.go, and the order of scores.
use golance_db.Prelude.{
  ℕ, zero, suc, ◌≡◌, refl, ap, sym, ◌∙◌, Bool, true, false, not, List, [], ◌∷◌, ◌++◌, length, take,
  drop, All, ltb, ◌==◌, arith, Perm, min, take-append-drop, Bool-cases, inl, inr, ltb→lt,
  length-take, take_all,
}
use golance_db.Prelude.Int.{pos}
use golance_db.Prelude.Sort.{Sorter, IsSorted, IsWeakOrder}
use golance_db.Float.{is_nan, f64_lt_asymm, f64_not_lt_trans}
use mathlib.Core.Path.{subst}
use golance_db.Prelude.Perms.{length-perm}
use golance_db.Distance.{SearchResult, by_score, top_k}

-- The score is a number.
abbrev pub scored : SearchResult → Bool
scored r = not (is_nan r.score)

abbrev pub AreScored : List SearchResult → Type 0
AreScored = All (λ r. scored r ≡ true)

pub by_score-IsWeakOrder : IsWeakOrder scored by_score
by_score-IsWeakOrder = record {
  asymm = λ a b _ _ h. f64_lt_asymm a.score b.score h;
  not_less_trans = λ a b c _ vb _ h k. f64_not_lt_trans a.score b.score c.score (ground arith) h k;
}

IsSorted-take : (n : ℕ) (l : List SearchResult) → IsSorted by_score l → IsSorted by_score (take n l)
IsSorted-take zero l h = tt
IsSorted-take (suc n) [] h = tt
IsSorted-take (suc n) (x ∷ l) h = (All_taken n l h.0, IsSorted-take n l h.1)
  where
    All_taken :
        (n : ℕ) (l : List SearchResult)
        → All (λ y. by_score y x ≡ false) l
        → All (λ y. by_score y x ≡ false) (take n l)
    All_taken zero l p = tt
    All_taken (suc n) [] p = tt
    All_taken (suc n) (y ∷ l) p = (p.0, All_taken n l p.1)

-- Each of the second list is at least as far as each of the first.
abbrev pub AllAfter : List SearchResult → List SearchResult → Type 0
AllAfter near far = All (λ t. All (λ r. by_score r t ≡ false) far) near

AllAfter-drop :
    (n : ℕ) (l : List SearchResult) → IsSorted by_score l → AllAfter (take n l) (drop n l)
AllAfter-drop zero l h = tt
AllAfter-drop (suc n) [] h = tt
AllAfter-drop (suc n) (x ∷ l) h = (All_dropped n l h.0, AllAfter-drop n l h.1)
  where
    All_dropped :
        (n : ℕ) (l : List SearchResult)
        → All (λ y. by_score y x ≡ false) l
        → All (λ y. by_score y x ≡ false) (drop n l)
    All_dropped zero l p = p
    All_dropped (suc n) [] p = tt
    All_dropped (suc n) (y ∷ l) p = All_dropped n l p.1

-- The k nearest of some results: `near` in ascending order, as many as there are up to k, and
-- `far`, what is left out, none of which is nearer.
pub record IsNearest (k : ℕ) (results near far : List SearchResult) : Type 0 where
  pub complete : Perm (near ++ far) results
  pub count : length near ≡ min k (length results)
  pub ascending : IsSorted by_score near
  pub nearest : AllAfter near far

-- What a prefix of the sorted results is.
pub prefix-IsNearest :
    (s : Sorter SearchResult by_score)
    → (k : ℕ) (results : List SearchResult) → AreScored results
    → IsNearest k results (take k (s.slice results)) (drop k (s.slice results))
prefix-IsNearest s k results v = record {
  complete =
      subst (λ l. Perm l results) (sym (take-append-drop k (s.slice results)))
        (s.slice-perm results);
  count = length-take k (s.slice results) ∙ ap (min k) (length-perm _ _ (s.slice-perm results));
  ascending = IsSorted-take k (s.slice results) ordered;
  nearest = AllAfter-drop k (s.slice results) ordered;
}
  where
    ordered : IsSorted by_score (s.slice results)
    ordered = s.slice-IsSorted scored by_score-IsWeakOrder results v

suc_not_zero : (n : ℕ) → (suc n == 0) ≡ false
suc_not_zero n = ground arith

-- The cases of the empty input and of an input shorter than k are those of a prefix.
top_k-take :
    (s : Sorter SearchResult by_score) (k : ℕ) (results : List SearchResult)
    → top_k s results (pos (suc k)) ≡ take (suc k) (s.slice results)
unfolding top_k
top_k-take s k [] = sym (none_taken (s.slice []) (length-perm _ _ (s.slice-perm [])))
  where
    none_taken : (l : List SearchResult) → length l ≡ 0 → take (suc k) l ≡ []
    none_taken [] h = refl
    none_taken (x ∷ l) h = absurd (omega arith)
top_k-take s k (x ∷ xs) = elim (Bool-cases (ltb (length (s.slice (x ∷ xs))) (suc k))) [
  | inl e ↦
      rw (e, suc_not_zero (length xs))
        (take_all (length (s.slice (x ∷ xs))) (s.slice (x ∷ xs)) (omega arith)
          ∙ sym (
              take_all (suc k) (s.slice (x ∷ xs))
                (ground (arith, ltb→lt (length (s.slice (x ∷ xs))) (suc k) e))))
  | inr e ↦ rw (e, suc_not_zero (length xs)) refl
]

-- At a positive k, where every score is a number, `TopK` returns the k nearest of the results,
-- in ascending order: the results are these and others, none of which is nearer.
pub top_k-IsNearest :
    (s : Sorter SearchResult by_score)
    → (k : ℕ) (results : List SearchResult) → AreScored results
    → IsNearest (suc k) results (top_k s results (pos (suc k))) (drop (suc k) (s.slice results))
top_k-IsNearest s k results v =
    subst (λ near. IsNearest (suc k) results near (drop (suc k) (s.slice results)))
      (sym (top_k-take s k results)) (prefix-IsNearest s (suc k) results v)
