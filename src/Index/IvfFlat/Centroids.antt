-- ===== src/Index/IvfFlat/Centroids.antt =====
-- The centroids that `Build` of index/ivf_flat.go makes: how many they are, and of which dimension.
use golance_db.Prelude.{
  ℕ, zero, suc, ◌*◌, ◌/◌, ◌≡◌, refl, ap, sym, ◌∙◌, List, [], ◌∷◌, ok, length, All, replicate,
  get_elem?, Option, none, some, map, arith, >>=-eq-ok, ok-injective, Bool-cases, some-injective,
  inl, inr, length-replicate, length-map, ◌==◌,
}
use golance_db.Float.{Arithmetic, f64_lt}
use golance_db.Distance.{DistanceMetric, distance}
use golance_db.Index.Types.{VectorRecord, at}
use golance_db.Index.Flat.Nearest.{HaveDim}
use golance_db.Index.IvfFlat.Build.{
  Arithmetic32, Cluster, Moved, update_at, add_vector, assign_vectors, accumulate, recompute,
  iterate, initial_centroids, add_moved, conv_threshold,
}
use mathlib.Core.Path.{subst}

pub length-update_at {ℓ} :
    {A : Type ℓ} (i : ℕ) (f : A → A) (l : List A) → length (update_at i f l) ≡ length l
unfolding update_at
length-update_at i f [] = refl
length-update_at zero f (x ∷ l) = refl
length-update_at (suc i) f (x ∷ l) = ap suc (length-update_at i f l)

module _ (m : Arithmetic) (a : Arithmetic32) (draw : ℕ → ℕ → ℕ) (vectors : List VectorRecord) where
  length-accumulate :
      (vs : List VectorRecord) (cs : List ℕ) (clusters : List Cluster)
      → length (accumulate a vs cs clusters) ≡ length clusters
  unfolding accumulate
  length-accumulate [] cs clusters = refl
  length-accumulate (v ∷ vs) [] clusters = refl
  length-accumulate (v ∷ vs) (c ∷ cs) clusters =
      length-accumulate vs cs _ ∙ length-update_at c _ clusters

  length-recompute :
      (olds : List (List ℕ)) (clusters : List Cluster) (moved drawn : ℕ) {r : Moved}
      → length olds ≡ length clusters
      → recompute m a draw vectors olds clusters moved drawn ≡ ok r
      → length r.centroids ≡ length olds
  unfolding recompute
  length-recompute [] [] moved drawn e h = ap (λ s. length s.centroids) (sym (ok-injective h))
  length-recompute [] (c ∷ cs) moved drawn e h = absurd (omega arith)
  length-recompute (o ∷ os) [] moved drawn e h = absurd (omega arith)
  length-recompute (o ∷ os) ((sum, count) ∷ cs) moved drawn {r} e h =
      elim (Bool-cases (count == 0)) [
        | inl none_left ↦
            let h0 = rw (none_left, recompute) at h in
            let (v, got, h1) =
              >>=-eq-ok (at (get_elem? vectors (draw drawn (length vectors)))) _ h0 in
            let (s, more, h2) =
              >>=-eq-ok (recompute m a draw vectors os cs moved (suc drawn)) _ h1 in
            ap (λ t. length t.centroids) (sym (ok-injective h2))
            ∙ ap suc (length-recompute os cs moved (suc drawn) (omega arith) more)
        | inr some_left ↦
            let h0 = rw (some_left, recompute) at h in
            let (s, more, h2) =
              >>=-eq-ok
                (recompute m a draw vectors os cs
                  (add_moved m moved (
                    distance m o (map (λ x. a.div32 x (a.of_count count)) sum)
                      DistanceMetric.euclidean))
                  drawn)
                _ h0 in
            ap (λ t. length t.centroids) (sym (ok-injective h2))
            ∙ ap suc (length-recompute os cs _ drawn (omega arith) more)
      ]

  pub length-iterate :
      (rounds : ℕ) (metric : DistanceMetric) (k dim : ℕ) (centroids : List (List ℕ)) (drawn : ℕ)
      {cs : List (List ℕ)}
      → length centroids ≡ k
      → iterate m a draw vectors rounds metric k dim centroids drawn ≡ ok cs
      → length cs ≡ k
  unfolding iterate
  length-iterate zero metric k dim centroids drawn e h = ap length (sym (ok-injective h)) ∙ e
  length-iterate (suc rounds) metric k dim centroids drawn e h =
      let (cs, assigned, h1) = >>=-eq-ok (assign_vectors m metric vectors centroids) _ h in
      let clusters = accumulate a vectors cs (replicate k (replicate dim 0, 0)) in
      let (r, made, h2) = >>=-eq-ok (recompute m a draw vectors centroids clusters 0 drawn) _ h1 in
      let kept : length r.centroids ≡ k =
        length-recompute centroids clusters 0 drawn
          (e ∙ sym (length-accumulate vectors cs _ ∙ length-replicate k _)) made
        ∙ e in
      elim (Bool-cases (f64_lt r.moved conv_threshold)) [
        | inl still ↦ ap length (sym (ok-injective (rw still at h2))) ∙ kept
        | inr moving ↦ length-iterate rounds metric k dim r.centroids r.drawn kept (rw moving at h2)
      ]

pub length-initial_centroids :
    (vectors : List VectorRecord) (left i k : ℕ) {cs : List (List ℕ)}
    → initial_centroids vectors left i k ≡ ok cs
    → length cs ≡ left
unfolding initial_centroids
length-initial_centroids vectors zero i k h = ap length (sym (ok-injective h))
length-initial_centroids vectors (suc left) i k h =
    let (v, got, h1) = >>=-eq-ok (at (get_elem? vectors ((i * length vectors) / k))) _ h in
    let (cs, more, h2) = >>=-eq-ok (initial_centroids vectors left (suc i) k) _ h1 in
    ap length (sym (ok-injective h2))
    ∙ ap suc (length-initial_centroids vectors left (suc i) k more)

abbrev pub AreLong : ℕ → List (List ℕ) → Type 0
AreLong dim = All (λ c. length c ≡ dim)

abbrev SumsAreLong : ℕ → List Cluster → Type 0
SumsAreLong dim = All (λ p. length p.0 ≡ dim)

length-add_vector : (a : Arithmetic32) (xs ys : List ℕ) → length (add_vector a xs ys) ≡ length xs
unfolding add_vector
length-add_vector a [] ys = refl
length-add_vector a (x ∷ xs) [] = refl
length-add_vector a (x ∷ xs) (y ∷ ys) = ap suc (length-add_vector a xs ys)

All-update_at {ℓ κ} :
    {A : Type ℓ} (P : A → Type κ) (i : ℕ) (f : A → A) (l : List A)
    → ((x : A) → P x → P (f x))
    → All P l
    → All P (update_at i f l)
unfolding update_at
All-update_at P i f [] keep h = tt
All-update_at P zero f (x ∷ l) keep h = (keep x h.0, h.1)
All-update_at P (suc i) f (x ∷ l) keep h = (h.0, All-update_at P i f l keep h.1)

All-get_elem? {ℓ κ} :
    {A : Type ℓ} (P : A → Type κ) (l : List A) (i : ℕ) {x : A}
    → All P l
    → get_elem? l i ≡ some x
    → P x
All-get_elem? P [] i h e = cc
All-get_elem? P (y ∷ l) zero h e = subst P (some-injective e) h.0
All-get_elem? P (y ∷ l) (suc i) h e = All-get_elem? P l i h.1 e

at_inv {ℓ} : {A : Type ℓ} (o : Option A) {x : A} → at o ≡ ok x → o ≡ some x
at_inv none h = cc
at_inv (some y) h = cc

pub All-replicate {ℓ κ} :
    {A : Type ℓ} (P : A → Type κ) (n : ℕ) (x : A) → P x → All P (replicate n x)
All-replicate P zero x h = tt
All-replicate P (suc n) x h = (h, All-replicate P n x h)

module _ (dim : ℕ) (vectors : List VectorRecord) (dims : HaveDim dim vectors) where
  pub initial_centroids-AreLong :
      (left i k : ℕ) {cs : List (List ℕ)}
      → initial_centroids vectors left i k ≡ ok cs
      → AreLong dim cs
  unfolding initial_centroids
  initial_centroids-AreLong zero i k {cs} h = subst (AreLong dim) (ok-injective h) tt
  initial_centroids-AreLong (suc left) i k {cs} h =
      let (v, got, h1) = >>=-eq-ok (at (get_elem? vectors ((i * length vectors) / k))) _ h in
      let (rest, more, h2) = >>=-eq-ok (initial_centroids vectors left (suc i) k) _ h1 in
      subst (AreLong dim) (ok-injective h2) (
        All-get_elem? (λ v. length v.vector ≡ dim) vectors _ dims (at_inv _ got),
        initial_centroids-AreLong left (suc i) k more,
      )

  module _ (m : Arithmetic) (a : Arithmetic32) (draw : ℕ → ℕ → ℕ) where
    pub accumulate-SumsAreLong :
        (vs : List VectorRecord) (cs : List ℕ) (clusters : List Cluster)
        → SumsAreLong dim clusters
        → SumsAreLong dim (accumulate a vs cs clusters)
    unfolding accumulate
    accumulate-SumsAreLong [] cs clusters h = h
    accumulate-SumsAreLong (v ∷ vs) [] clusters h = h
    accumulate-SumsAreLong (v ∷ vs) (c ∷ cs) clusters h = accumulate-SumsAreLong vs cs _ (
        All-update_at (λ p. length p.0 ≡ dim) c _ clusters
          (λ p e. length-add_vector a p.0 v.vector ∙ e) h)

    pub recompute-AreLong :
        (olds : List (List ℕ)) (clusters : List Cluster) (moved drawn : ℕ) {r : Moved}
        → SumsAreLong dim clusters
        → recompute m a draw vectors olds clusters moved drawn ≡ ok r
        → AreLong dim r.centroids
    unfolding recompute
    recompute-AreLong [] cs moved drawn s h =
        subst (λ (t : Moved). AreLong dim t.centroids) (ok-injective h) tt
    recompute-AreLong (o ∷ os) [] moved drawn s h =
        subst (λ (t : Moved). AreLong dim t.centroids) (ok-injective h) tt
    recompute-AreLong (o ∷ os) ((sum, count) ∷ cs) moved drawn {r} s h =
        elim (Bool-cases (count == 0)) [
          | inl none_left ↦
              let h0 = rw (none_left, recompute) at h in
              let (v, got, h1) =
                >>=-eq-ok (at (get_elem? vectors (draw drawn (length vectors)))) _ h0 in
              let (t, more, h2) =
                >>=-eq-ok (recompute m a draw vectors os cs moved (suc drawn)) _ h1 in
              subst (λ (t : Moved). AreLong dim t.centroids) (ok-injective h2)
                (
                  All-get_elem? (λ v. length v.vector ≡ dim) vectors _ dims (at_inv _ got),
                  recompute-AreLong os cs moved (suc drawn) s.1 more,
                )
          | inr some_left ↦
              let h0 = rw (some_left, recompute) at h in
              let mean = map (λ x. a.div32 x (a.of_count count)) sum in
              let (t, more, h2) =
                >>=-eq-ok
                  (recompute m a draw vectors os cs
                    (add_moved m moved (distance m o mean DistanceMetric.euclidean)) drawn)
                  _ h0 in
              subst (λ (t : Moved). AreLong dim t.centroids) (ok-injective h2)
                (length-map _ sum ∙ s.0, recompute-AreLong os cs _ drawn s.1 more)
        ]

    pub iterate-AreLong :
        (rounds : ℕ) (metric : DistanceMetric) (k : ℕ) (centroids : List (List ℕ)) (drawn : ℕ)
        {cs : List (List ℕ)}
        → AreLong dim centroids
        → iterate m a draw vectors rounds metric k dim centroids drawn ≡ ok cs
        → AreLong dim cs
    unfolding iterate
    iterate-AreLong zero metric k centroids drawn e h = subst (AreLong dim) (ok-injective h) e
    iterate-AreLong (suc rounds) metric k centroids drawn {cs} e h =
        let (chosen, assigned, h1) = >>=-eq-ok (assign_vectors m metric vectors centroids) _ h in
        let clusters = accumulate a vectors chosen (replicate k (replicate dim 0, 0)) in
        let (r, made, h2) =
          >>=-eq-ok (recompute m a draw vectors centroids clusters 0 drawn) _ h1 in
        let kept : AreLong dim r.centroids =
          recompute-AreLong centroids clusters 0 drawn
            (accumulate-SumsAreLong vectors chosen _ (
              All-replicate (λ (p : Cluster). length p.0 ≡ dim) k (replicate dim 0, 0)
                (length-replicate dim 0)))
            made in
        elim (Bool-cases (f64_lt r.moved conv_threshold)) [
          | inl still ↦ subst (AreLong dim) (ok-injective (rw still at h2)) kept
          | inr moving ↦ iterate-AreLong rounds metric k r.centroids r.drawn kept (rw moving at h2)
        ]
