-- ===== src/Query/Hybrid/Limit.antt =====
-- query/hybrid_search.go: the limit of a query.
use golance_db.Prelude.{
  ℕ, suc, ◌≤◌, ◌≡◌, List, [], ◌∷◌, length, ok, >>=-eq-ok, ok-injective, arith, inl, inr, Bool-cases,
  ltb, Option, none, some, length-take,
}
use golance_db.Prelude.Int.{ℤ, pos}
use golance_db.Prelude.Sort.{Sorter}
use golance_db.Bytes.{Bytes}
use golance_db.Float.{Arithmetic}
use golance_db.Distance.{SearchResult, by_score}
use golance_db.Encode.Compression.{Codec}
use golance_db.Table.Types.{Manifest, id_of, dimension_of}
use golance_db.Encode.MiniBlock.{rounds}
use golance_db.Query.Filter.{ScalarFilter, filter}
use golance_db.Query.Search.{VectorQuery, search, searched_field, apply_limit, Context}
use golance_db.Query.Hybrid.{
  matching, scan_matching_fragments, HybridSearch, SearchStrategy, search_matching,
  filter_first_search, search_first_search, search_with_strategy,
}
use mathlib.Core.Path.{subst}

apply_limit_bound : (rs : List SearchResult) (k : ℕ) → length (apply_limit rs (pos (suc k))) ≤ suc k
unfolding apply_limit
apply_limit_bound rs k = elim (Bool-cases (ltb (suc k) (length rs))) [
  | inl e ↦ rw e (omega (arith, length-take (suc k) rs))
  | inr e ↦ rw e (ground arith)
]

module _ (m : Arithmetic) (s : Sorter SearchResult by_score) (ctx : Context) (c : Codec)
    (h : HybridSearch) (manifest : Manifest) (k : ℕ) where
  limited :
      (l rs : List SearchResult) → ok (apply_limit l (pos (suc k))) ≡ ok rs → length rs ≤ suc k
  limited l rs e = subst (λ r. length r ≤ suc k) (ok-injective e) (apply_limit_bound l k)

  search_matching_bound :
      (v : VectorQuery) (ids : List ℤ) (rs : List SearchResult)
      → search_matching m s ctx c h manifest v (pos (suc k)) ids ≡ ok rs
      → length rs ≤ suc k
  unfolding search_matching
  search_matching_bound v [] rs e = subst (λ r. length r ≤ suc k) (ok-injective e) (omega arith)
  search_matching_bound v (id ∷ ids) rs e =
      let (searched, _, e₁) = >>=-eq-ok (searched_field h.brute_force.schema v) _ e in
      let (cs, _, e₂) =
        >>=-eq-ok
          (scan_matching_fragments m v (rounds (dimension_of searched)) (matching (id ∷ ids)) ctx c
            h.brute_force.reader (id_of searched) (length manifest.fragments) (pos 0)
            manifest.fragments)
          _ e₁ in
      limited (s.slice cs) rs e₂

  filter_first_bound :
      (v : VectorQuery) (f : ScalarFilter) (rs : List SearchResult)
      → filter_first_search m s ctx c h manifest v f (pos (suc k)) ≡ ok rs
      → length rs ≤ suc k
  unfolding filter_first_search
  filter_first_bound v f rs e =
      let (ids, _, e₁) = >>=-eq-ok (filter m c h.scan_filter ctx 0 manifest f) _ e in
      search_matching_bound v ids rs e₁

  search_first_bound :
      (v : VectorQuery) (f : ScalarFilter) (rs : List SearchResult)
      → search_first_search m s ctx c h manifest v f (pos (suc k)) ≡ ok rs
      → length rs ≤ suc k
  unfolding search_first_search
  search_first_bound v f rs e =
      let (found, _, e₁) = >>=-eq-ok (search m s ctx c h.brute_force manifest v) _ e in
      let (ids, _, e₂) =
        >>=-eq-ok (filter m c h.scan_filter ctx (length manifest.fragments) manifest f) _ e₁ in
      limited _ rs e₂

-- A query with a positive limit that succeeds has at most that many results, whichever of the
-- vector and the filter it has, and at every strategy.
pub search_with_strategy_bound :
    (m : Arithmetic) (s : Sorter SearchResult by_score) (ctx : Context) (c : Codec)
    (h : HybridSearch) (manifest : Manifest) (vector : Option VectorQuery)
    (scalar_filter : Option ScalarFilter) (k : ℕ) (columns : List Bytes) (timeout : ℤ)
    (strategy : SearchStrategy) (rs : List SearchResult)
    → search_with_strategy m s ctx c h manifest
        (record {
          vector = vector;
          scalar_filter = scalar_filter;
          limit = pos (suc k);
          columns = columns;
          timeout = timeout;
        })
        strategy
      ≡ ok rs
    → length rs ≤ suc k
unfolding search_with_strategy
search_with_strategy_bound m s ctx c h manifest none none k cols t strategy rs e =
    subst (λ r. length r ≤ suc k) (ok-injective e) (omega arith)
search_with_strategy_bound m s ctx c h manifest none (some f) k cols t strategy rs e =
    let (ids, _, e₁) = >>=-eq-ok (filter m c h.scan_filter ctx 0 manifest f) _ e in
    limited m s ctx c h manifest k _ rs e₁
search_with_strategy_bound m s ctx c h manifest (some v) none k cols t strategy rs e =
    let (found, _, e₁) = >>=-eq-ok (search m s ctx c h.brute_force manifest v) _ e in
    limited m s ctx c h manifest k found rs e₁
search_with_strategy_bound m s ctx c h manifest (some v) (some f) k cols t
      SearchStrategy.filter_first rs e =
    filter_first_bound m s ctx c h manifest k v f rs e
search_with_strategy_bound m s ctx c h manifest (some v) (some f) k cols t
      SearchStrategy.search_first rs e =
    search_first_bound m s ctx c h manifest k v f rs e
search_with_strategy_bound m s ctx c h manifest (some v) (some f) k cols t
      (SearchStrategy.unknown n) rs e =
    filter_first_bound m s ctx c h manifest k v f rs e
