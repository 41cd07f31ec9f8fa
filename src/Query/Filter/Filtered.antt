-- ===== src/Query/Filter/Filtered.antt =====
-- query/scan_filter.go: which row ids `Filter` returns.
use golance_db.Prelude.{
  ℕ, suc, ◌<◌, ◌≡◌, ◌⊎◌, refl, sym, ap, ◌∙◌, List, [], ◌∷◌, ◌++◌, length, get_elem?, replicate, All,
  Bool, true, false, some, Result, ok, err, ◌>>=◌, >>=-eq-ok, ok-injective, arith, length-replicate,
  inl, inr, canceled, Bool-cases,
}
use golance_db.Prelude.Int.{ℤ, pos, negsuc, ◌+ℤ◌}
use golance_db.Float.{Arithmetic}
use golance_db.Encode.Compression.{Codec}
use golance_db.Encode.MiniBlock.{rounds}
use golance_db.Table.Types.{Fragment}
use golance_db.Query.Reader.{row_count}
use golance_db.Query.Filter.{
  ScalarCondition, ScanFilter, all_true, matching_ids, test_conditions, filter_fragments,
}
use golance_db.Query.Filter.Rows.{IsMet, test_conditions-IsMet, length-test_conditions}
use mathlib.Core.Path.{subst}
use golance_db.Query.Filter.Numbering.{
  append_sound, append_left, append_right, replicate_complete, some_bound, matching_ids_sound,
  matching_ids_complete,
}

module _ (m : Arithmetic) (c : Codec) (sf : ScanFilter) (conds : List ScalarCondition) where
  -- The id is that of row i of the fragment, which meets all conditions.
  pub record IsHit (frag : Fragment) (offset id : ℤ) : Type 0 where
    pub row : ℕ
    pub in_range : row < rounds (row_count frag)
    pub numbered : id ≡ offset +ℤ pos row
    pub met : All (IsMet m c sf frag row) conds

  -- The same for some fragment of a list; the rows are numbered through.
  abbrev pub HasHit : List Fragment → ℤ → ℤ → Type 0
  HasHit [] offset id = ⊥
  HasHit (frag ∷ frags) offset id =
      IsHit frag offset id ⊎ HasHit frags (offset +ℤ row_count frag) id

  fragment-IsHit :
      (frag : Fragment) (offset : ℤ) (n : ℕ) (matched : List Bool)
      → rounds (row_count frag) ≡ n
      → test_conditions m c sf frag conds (replicate n true) ≡ ok matched
      → length matched ≡ n
      → ((j : ℕ) (id : ℤ)
          → get_elem? (matching_ids offset matched) j ≡ some id
          → IsHit frag offset id)
        × ((id : ℤ)
            → IsHit frag offset id
            → (j : ℕ) × (get_elem? (matching_ids offset matched) j ≡ some id))
  fragment-IsHit frag offset n matched count e l = (
    λ j id h.
        let (i, left, numbered) = matching_ids_sound offset matched j id h in
        let bound = some_bound matched i left in
        let (_, met) =
          (test_conditions-IsMet m c sf frag conds (replicate n true) matched i
              (omega (arith, length-replicate n true)) e).0
            left in
        record { row = i; in_range = omega arith; numbered = numbered; met = met },
    λ id hit.
        let bound : hit.row < n = omega (arith, hit.in_range) in
        let left =
          (test_conditions-IsMet m c sf frag conds (replicate n true) matched hit.row
              (omega (arith, length-replicate n true)) e).1
            (replicate_complete n hit.row bound, hit.met) in
        let (j, found) = matching_ids_complete offset matched hit.row left in
        (j, found ∙ ap some (sym hit.numbered)),
  )

  -- What `make` gives, where it does not panic
  all_true-rows :
      (z : ℤ) (rows : List Bool) → all_true z ≡ ok rows → rows ≡ replicate (rounds z) true
  all_true-rows (pos n) rows h = sym (ok-injective h)
  all_true-rows (negsuc n) rows h = cc

  -- The steps of a round that succeeds
  module _ (ctx : ℕ → Bool) (asked : ℕ) (offset : ℤ) (frag : Fragment) (frags : List Fragment) where
    round : Result (List ℤ)
    round = do
      rows ← all_true (row_count frag)
      matched ← test_conditions m c sf frag conds rows
      more ← filter_fragments m c sf ctx conds (suc asked) (offset +ℤ row_count frag) frags
      ok (matching_ids offset matched ++ more)

    stopped :
        ctx asked ≡ true
        → filter_fragments m c sf ctx conds asked offset (frag ∷ frags) ≡ err canceled
    unfolding filter_fragments
    stopped h = rw h refl

    entered :
        ctx asked ≡ false → filter_fragments m c sf ctx conds asked offset (frag ∷ frags) ≡ round
    unfolding filter_fragments round
    entered h = rw h refl

    round_inv :
        (ids : List ℤ)
        → filter_fragments m c sf ctx conds asked offset (frag ∷ frags) ≡ ok ids
        → (matched : List Bool) × (more : List ℤ) × (test_conditions m c sf frag conds
              (replicate (rounds (row_count frag)) true)
            ≡ ok matched)
          × (filter_fragments m c sf ctx conds (suc asked) (offset +ℤ row_count frag) frags
              ≡ ok more)
          × (matching_ids offset matched ++ more ≡ ids)
    unfolding round
    round_inv ids e = elim (Bool-cases (ctx asked)) [
      | inl stop ↦ absurd (no_ok ids (sym (stopped stop) ∙ e))
      | inr live ↦
          let (rows, ah, e₁) = >>=-eq-ok (all_true (row_count frag)) _ (sym (entered live) ∙ e) in
          let (matched, th, e₂) = >>=-eq-ok (test_conditions m c sf frag conds rows) _ e₁ in
          let (more, mh, e₃) =
            >>=-eq-ok
              (filter_fragments m c sf ctx conds (suc asked) (offset +ℤ row_count frag) frags) _
              e₂ in
          (
            matched,
            more,
            ap (test_conditions m c sf frag conds) (sym (all_true-rows (row_count frag) rows ah))
                ∙ th,
            mh,
            ok-injective e₃,
          )
    ]
      where
        no_ok : (ids : List ℤ) → err canceled ≡ ok ids → ⊥
        no_ok ids h = cc

  -- Where a filter succeeds on some fragments, it returns the id of a row if the row is one of a
  -- fragment's, counted from the first row of the first fragment, and meets every condition, and
  -- only then: each id that is returned is that of such a row, and each such row's is returned.
  pub filter_fragments-HasHit :
      (ctx : ℕ → Bool) (asked : ℕ) (offset : ℤ) (frags : List Fragment) (ids : List ℤ)
      → filter_fragments m c sf ctx conds asked offset frags ≡ ok ids
      → ((j : ℕ) (id : ℤ) → get_elem? ids j ≡ some id → HasHit frags offset id)
        × ((id : ℤ) → HasHit frags offset id → (j : ℕ) × (get_elem? ids j ≡ some id))
  unfolding filter_fragments
  filter_fragments-HasHit ctx asked offset [] ids e = (
    λ j id h. none_at j id (subst (λ l. get_elem? l j ≡ some id) (sym (ok-injective e)) h),
    λ id hit. absurd hit,
  )
    where
      none_at : (j : ℕ) (id : ℤ) → get_elem? [] j ≡ some id → ⊥
      none_at j id h = cc
  filter_fragments-HasHit ctx asked offset (frag ∷ frags) ids e =
      let (matched, more, th, mh, all) = round_inv ctx asked offset frag frags ids e in
      let n = rounds (row_count frag) in
      let whole =
        length-test_conditions m c sf frag conds (replicate n true) matched th
        ∙ length-replicate n true in
      let (sound, complete) = fragment-IsHit frag offset n matched refl th whole in
      let (later_sound, later_complete) =
        filter_fragments-HasHit ctx (suc asked) (offset +ℤ row_count frag) frags more mh in
      (
        λ j id h.
            elim (append_sound (matching_ids offset matched) more j id
              (subst (λ l. get_elem? l j ≡ some id) (sym all) h)) [
                | inl here ↦ inl (sound here.0 id here.1)
                | inr there ↦ inr (later_sound there.0 id there.1)
              ],
        λ id hit.
            subst (λ l. (j : ℕ) × (get_elem? l j ≡ some id)) all
              (elim hit [
                | inl here ↦
                    let (i, h) = complete id here in
                    append_left (matching_ids offset matched) more i id h
                | inr there ↦
                    let (i, h) = later_complete id there in
                    append_right (matching_ids offset matched) more i id h
              ]),
      )
