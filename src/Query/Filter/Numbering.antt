-- ===== src/Query/Filter/Numbering.antt =====
-- query/scan_filter.go: the numbering of the rows, and look-ups by position.
use golance_db.Prelude.{
  ℕ, zero, suc, ◌<◌, ◌≡◌, ◌⊎◌, refl, sym, ap, ◌∙◌, List, [], ◌∷◌, ◌++◌, length, get_elem?,
  replicate, Bool, true, false, some, arith, inl, inr,
}
use golance_db.Prelude.Int.{ℤ, pos, ◌+ℤ◌, int_laws}
use golance_db.Query.Filter.{matching_ids}
use mathlib.Core.Option.{some-injective}

module _ {ℓ} {A : Type ℓ} where
  pub append_sound :
      (xs ys : List A) (j : ℕ) (v : A)
      → get_elem? (xs ++ ys) j ≡ some v
      → ((i : ℕ) × (get_elem? xs i ≡ some v)) ⊎ ((i : ℕ) × (get_elem? ys i ≡ some v))
  append_sound [] ys j v h = inr (j, h)
  append_sound (x ∷ xs) ys zero v h = inl (0, h)
  append_sound (x ∷ xs) ys (suc j) v h = elim (append_sound xs ys j v h) [
    | inl p ↦ inl (suc p.0, p.1)
    | inr p ↦ inr p
  ]

  pub append_left :
      (xs ys : List A) (i : ℕ) (v : A)
      → get_elem? xs i ≡ some v
      → (j : ℕ) × (get_elem? (xs ++ ys) j ≡ some v)
  append_left [] ys i v h = cc
  append_left (x ∷ xs) ys zero v h = (0, h)
  append_left (x ∷ xs) ys (suc i) v h = let (j, e) = append_left xs ys i v h in (suc j, e)

  pub append_right :
      (xs ys : List A) (i : ℕ) (v : A)
      → get_elem? ys i ≡ some v
      → (j : ℕ) × (get_elem? (xs ++ ys) j ≡ some v)
  append_right [] ys i v h = (i, h)
  append_right (x ∷ xs) ys i v h = let (j, e) = append_right xs ys i v h in (suc j, e)

replicate_sound : (n i : ℕ) → get_elem? (replicate n true) i ≡ some true → i < n
replicate_sound zero i h = cc
replicate_sound (suc n) zero h = omega arith
replicate_sound (suc n) (suc i) h = omega (arith, replicate_sound n i h)

pub replicate_complete : (n i : ℕ) → i < n → get_elem? (replicate n true) i ≡ some true
replicate_complete zero i h = absurd (omega arith)
replicate_complete (suc n) zero h = refl
replicate_complete (suc n) (suc i) h = replicate_complete n i (omega arith)

pub some_bound : (l : List Bool) (i : ℕ) → get_elem? l i ≡ some true → i < length l
some_bound [] i h = cc
some_bound (x ∷ l) zero h = omega arith
some_bound (x ∷ l) (suc i) h = omega (arith, some_bound l i h)

next_id : (id : ℤ) (i : ℕ) → id +ℤ pos 1 +ℤ pos i ≡ id +ℤ pos (suc i)
next_id id i = grind int_laws

first_id : (id : ℤ) → id +ℤ pos 0 ≡ id
first_id id = grind int_laws

pub matching_ids_sound :
    (offset : ℤ) (rows : List Bool) (j : ℕ) (id : ℤ)
    → get_elem? (matching_ids offset rows) j ≡ some id
    → (i : ℕ) × (get_elem? rows i ≡ some true) × (id ≡ offset +ℤ pos i)
unfolding matching_ids
matching_ids_sound offset [] j id h = cc
matching_ids_sound offset (false ∷ rows) j id h =
    let (i, e, n) = matching_ids_sound (offset +ℤ pos 1) rows j id h in
    (suc i, e, n ∙ next_id offset i)
matching_ids_sound offset (true ∷ rows) zero id h =
    (0, refl, sym (some-injective offset id h) ∙ sym (first_id offset))
matching_ids_sound offset (true ∷ rows) (suc j) id h =
    let (i, e, n) = matching_ids_sound (offset +ℤ pos 1) rows j id h in
    (suc i, e, n ∙ next_id offset i)

pub matching_ids_complete :
    (offset : ℤ) (rows : List Bool) (i : ℕ)
    → get_elem? rows i ≡ some true
    → (j : ℕ) × (get_elem? (matching_ids offset rows) j ≡ some (offset +ℤ pos i))
unfolding matching_ids
matching_ids_complete offset [] i h = cc
matching_ids_complete offset (true ∷ rows) zero h = (0, ap some (sym (first_id offset)))
matching_ids_complete offset (false ∷ rows) zero h = cc
matching_ids_complete offset (true ∷ rows) (suc i) h =
    let (j, e) = matching_ids_complete (offset +ℤ pos 1) rows i h in
    (suc j, e ∙ ap some (next_id offset i))
matching_ids_complete offset (false ∷ rows) (suc i) h =
    let (j, e) = matching_ids_complete (offset +ℤ pos 1) rows i h in
    (j, e ∙ ap some (next_id offset i))
