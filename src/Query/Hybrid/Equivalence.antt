-- ===== src/Query/Hybrid/Equivalence.antt =====
-- query/hybrid_search.go: the two strategies against one another.
use golance_db.Prelude.{
  ℕ, zero, suc, ◌≡◌, refl, arith, sym, ap, ◌∙◌, List, [], ◌∷◌, length, Bool, false, ok, >>=-eq-ok,
  ok-injective, inl, inr, Bool-cases, if◌then◌else◌, Perm, Option, none, some,
}
use golance_db.Prelude.Int.{ℤ, pos, negsuc, ◌+ℤ◌, ltb_ℤ}
use golance_db.Prelude.Sort.{Sorter}
use golance_db.Float.{Arithmetic}
use golance_db.Distance.{SearchResult, by_score}
use golance_db.Encode.Compression.{Codec}
use golance_db.Encode.MiniBlock.{rounds}
use golance_db.Table.Types.{Field, Fragment, Manifest, dimension_of, id_of}
use golance_db.Query.Reader.{row_count}
use golance_db.Query.Filter.{ScalarCondition, ScalarFilter, ScanFilter, filter_fragments, filter}
use golance_db.Query.Search.{
  VectorQuery, scan_fragments, searched_field, search, apply_limit, Context,
}
use golance_db.Query.Hybrid.{
  HybridSearch, matching, select, scan_matching_fragments, search_matching, filter_first_search,
  search_first_search,
}
use golance_db.Query.Hybrid.Rows.{scan_matching_fragments-eq}
use mathlib.Core.List
use mathlib.Core.List.Perm
use mathlib.Core.Path.{subst}

kept : (ℤ → Bool) → SearchResult → Option SearchResult
kept keep r = if keep r.row_id then some r else none

select-filter_map :
    (keep : ℤ → Bool) (rs : List SearchResult) → List.filter_map (kept keep) rs ≡ select keep rs
unfolding select kept List.filter_map
select-filter_map keep [] = refl
select-filter_map keep (r ∷ rs) = elim (Bool-cases (keep r.row_id)) [
  | inl k ↦ rw k (ap (◌∷◌ r) (select-filter_map keep rs))
  | inr k ↦ rw k (select-filter_map keep rs)
]

pub select-perm :
    (keep : ℤ → Bool) (rs ts : List SearchResult)
    → Perm rs ts
    → Perm (select keep rs) (select keep ts)
select-perm keep rs ts h =
    rw (sym (select-filter_map keep rs), sym (select-filter_map keep ts))
      (Perm.filter_map (kept keep) h)

-- A limit that is not positive keeps all.
apply_limit_all :
    (rs : List SearchResult) (limit : ℤ) → ltb_ℤ (pos 0) limit ≡ false → apply_limit rs limit ≡ rs
unfolding apply_limit
apply_limit_all rs (negsuc n) h = refl
apply_limit_all rs (pos zero) h = refl
apply_limit_all rs (pos (suc k)) h = ground arith

select_none : (rs : List SearchResult) → select (matching []) rs ≡ []
unfolding select matching
select_none [] = refl
select_none (r ∷ rs) = select_none rs

-- How often the context was asked before does not matter to a filter that is never cancelled.
module _ (m : Arithmetic) (c : Codec) (sf : ScanFilter) (ctx : Context)
    (live : (n : ℕ) → ctx n ≡ false) where
  filter_fragments_asked :
      (conds : List ScalarCondition) (a b : ℕ) (offset : ℤ) (frags : List Fragment)
      → filter_fragments m c sf ctx conds a offset frags
        ≡ filter_fragments m c sf ctx conds b offset frags
  unfolding filter_fragments
  filter_fragments_asked conds a b offset [] = refl
  filter_fragments_asked conds a b offset (frag ∷ frags) =
      rw
        (
          live a,
          live b,
          filter_fragments_asked conds (suc a) (suc b) (offset +ℤ row_count frag) frags,
        )
        refl

  filter_asked :
      (a b : ℕ) (manifest : Manifest) (f : ScalarFilter)
      → filter m c sf ctx a manifest f ≡ filter m c sf ctx b manifest f
  unfolding filter
  filter_asked a b manifest f = of_conditions f.conditions
    where
      of_conditions :
          (conds : List ScalarCondition)
          → filter m c sf ctx a manifest (record { conditions = conds })
            ≡ filter m c sf ctx b manifest (record { conditions = conds })
      of_conditions [] = refl
      of_conditions (cond ∷ conds) =
          filter_fragments_asked (cond ∷ conds) a b (pos 0) manifest.fragments

-- The second phase of `filterFirst`, where the full scan of the same fragments succeeds
search_matching-perm :
    (m : Arithmetic) (s : Sorter SearchResult by_score) (ctx : Context) (c : Codec)
    (h : HybridSearch) (manifest : Manifest) (v : VectorQuery) (limit : ℤ) (ids : List ℤ)
    (searched : Field) (cs : List SearchResult)
    → ((n : ℕ) → ctx n ≡ false)
    → ltb_ℤ (pos 0) limit ≡ false
    → searched_field h.brute_force.schema v ≡ ok searched
    → scan_fragments m v
        (rounds (dimension_of searched))
        ctx
        c
        h.brute_force.reader
        (id_of searched)
        0
        (pos 0)
        manifest.fragments
      ≡ ok cs
    → (rs : List SearchResult) × (search_matching m s ctx c h manifest v limit ids ≡ ok rs)
      × Perm rs (select (matching ids) (s.slice cs))
unfolding search_matching
search_matching-perm m s ctx c h manifest v limit [] searched cs live all fh ch =
    ([], refl, rw (select_none (s.slice cs)) (Perm.refl _))
search_matching-perm m s ctx c h manifest v limit (id ∷ ids) searched cs live all fh ch = (
  s.slice (select keep cs),
  rw (fh, scanned) (ap ok (apply_limit_all _ limit all)),
  Perm.trans (s.slice-perm (select keep cs))
      (select-perm keep cs (s.slice cs) (Perm.symm (s.slice-perm cs))),
)
  where
    keep : ℤ → Bool
    keep = matching (id ∷ ids)

    scanned :
        scan_matching_fragments m v
          (rounds (dimension_of searched))
          (matching (id ∷ ids))
          ctx
          c
          h.brute_force.reader
          (id_of searched)
          (length manifest.fragments)
          (pos 0)
          manifest.fragments
        ≡ ok (select (matching (id ∷ ids)) cs)
    scanned =
        scan_matching_fragments-eq m v (rounds (dimension_of searched)) (matching (id ∷ ids)) ctx
          live c h.brute_force.reader (id_of searched) 0 (length manifest.fragments) (pos 0)
          manifest.fragments cs ch

-- Where the query succeeds with the search-first strategy, the limit is not positive (all
-- results are asked for) and the context is never cancelled, it succeeds with the filter-first
-- strategy too, with the same results up to the order of equal scores: a permutation of them.
pub filter_first-search_first :
    (m : Arithmetic) (s : Sorter SearchResult by_score) (ctx : Context) (c : Codec)
    (h : HybridSearch) (manifest : Manifest) (v : VectorQuery) (f : ScalarFilter) (limit : ℤ)
    (results : List SearchResult)
    → ((n : ℕ) → ctx n ≡ false)
    → ltb_ℤ (pos 0) limit ≡ false
    → search_first_search m s ctx c h manifest v f limit ≡ ok results
    → (results' : List SearchResult) × (filter_first_search m s ctx c h manifest v f limit
        ≡ ok results')
      × Perm results' results
unfolding search_first_search filter_first_search search search_matching
filter_first-search_first m s ctx c h manifest v f limit results live all e =
    let (found, sh, e₁) = >>=-eq-ok (search m s ctx c h.brute_force manifest v) _ e in
    let (ids, fh, e₂) =
      >>=-eq-ok (filter m c h.scan_filter ctx (length manifest.fragments) manifest f) _ e₁ in
    let (searched, vh, s₁) = >>=-eq-ok (searched_field h.brute_force.schema v) _ sh in
    let (cs, ch, s₂) =
      >>=-eq-ok
        (scan_fragments m v (rounds (dimension_of searched)) ctx c h.brute_force.reader
          (id_of searched) 0 (pos 0) manifest.fragments)
        _ s₁ in
    let (rs, rh, p) =
      search_matching-perm m s ctx c h manifest v limit ids searched cs live all vh ch in
    let same =
      ap (select (matching ids)) (ok-injective s₂)
      ∙ sym (apply_limit_all _ limit all)
      ∙ ok-injective e₂ in
    (
      rs,
      rw (filter_asked m c h.scan_filter ctx live 0 (length manifest.fragments) manifest f, fh) rh,
      subst (Perm rs) same p,
    )
