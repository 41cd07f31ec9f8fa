-- ===== src/Index/IvfFlat/Probes.antt =====
-- What the loop over the partitions of index/ivf_flat.go collects, where every distance can be taken.
use golance_db.Prelude.{
  ℕ, zero, suc, ◌+◌, ◌<◌, ◌≡◌, refl, ap, sym, ◌∙◌, List, [], ◌∷◌, ◌++◌, some, ok, length, All,
  concat, map, get_elem?, replicate, arith, Perm,
}
use golance_db.Prelude.Int.{ℤ, pos, negsuc}
use golance_db.Float.{Arithmetic}
use golance_db.Distance.{SearchResult, DistanceMetric}
use golance_db.Index.Types.{VectorRecord, score}
use golance_db.Index.Flat.Nearest.{AreScores, IsTotalMetric, total_distance}
use golance_db.Index.IvfFlat.{CentDist, centroid_distances, scan_partition, scan_probes}
use golance_db.Index.IvfFlat.Centroids.{AreLong}
use golance_db.Index.IvfFlat.Partitions.{seq}
use mathlib.Core.List.{Permᴰ, Perm-prop}
use mathlib.Core.List.Perm
use mathlib.Core.List.{append_assoc, perm_append_comm, map-append}
use mathlib.Core.Logic.{∥∥₁_elim}
use mathlib.Core.Path.{subst}

-- An element, or the default
abbrev pub nth {ℓ} : {A : Type ℓ} → A → List A → ℕ → A
nth d [] i = d
nth d (x ∷ xs) zero = x
nth d (x ∷ xs) (suc i) = nth d xs i

abbrev pub no_result : SearchResult
no_result = record { row_id = pos 0; score = 0 }

-- The score of the vector at a position
abbrev pub hit : List SearchResult → ℤ → SearchResult
hit rs (pos i) = nth no_result rs i
hit rs (negsuc i) = no_result

abbrev pub IsPosition : ℕ → ℤ → Type 0
IsPosition n (pos i) = i < n
IsPosition n (negsuc i) = ⊥

abbrev pub nats : ℕ → ℕ → List ℕ
nats i zero = []
nats i (suc n) = i ∷ nats (suc i) n

pub map-seq {κ} :
    {B : Type κ} (f : ℤ → B) (i n : ℕ) → map f (seq i n) ≡ map (λ j. f (pos j)) (nats i n)
map-seq f i zero = refl
map-seq f i (suc n) = ap (◌∷◌ (f (pos i))) (map-seq f (suc i) n)

-- A list is its elements at all positions, in order.
pub map-nats {ℓ} :
    {A : Type ℓ} (d : A) (f : ℕ → A) (i : ℕ) (xs : List A)
    → ((j : ℕ) → f (i + j) ≡ nth d xs j)
    → map f (nats i (length xs)) ≡ xs
map-nats d f i [] h = refl
map-nats d f i (x ∷ xs) h =
    let first : f i ≡ x = ap f (omega arith) ∙ h 0 in
    let later : map f (nats (suc i) (length xs)) ≡ xs =
      map-nats d f (suc i) xs (λ j. ap f (omega arith) ∙ h (suc j)) in
    ap (λ y. y ∷ map f (nats (suc i) (length xs))) first ∙ ap (◌∷◌ x) later

swap_parts {ℓ} : {A : Type ℓ} (a b c : List A) → Perm (a ++ (b ++ c)) (b ++ (a ++ c))
swap_parts a b c =
    subst (λ l. Perm l (b ++ (a ++ c))) (append_assoc a b c)
      (subst (Perm ((a ++ b) ++ c)) (append_assoc b a c)
        (Perm.append_right c (perm_append_comm a b)))

concat-permᴰ {ℓ} :
    {A : Type ℓ} {ls ls' : List (List A)} → Permᴰ ls ls' → Perm (concat ls) (concat ls')
concat-permᴰ Permᴰ.nil = Perm.refl []
concat-permᴰ (Permᴰ.cons {a = a} e d) =
    Perm.append (subst (Perm a) e (Perm.refl a)) (concat-permᴰ d)
concat-permᴰ (Permᴰ.swap {a = a} {b = b} {b' = b'} {l = l} e f) =
    subst (λ x. Perm (a ++ (b ++ concat l)) (x ++ (b' ++ concat l))) f
      (subst (λ y. Perm (a ++ (b ++ concat l)) (b ++ (y ++ concat l))) e
        (swap_parts a b (concat l)))
concat-permᴰ (Permᴰ.trans d e) = Perm.trans (concat-permᴰ d) (concat-permᴰ e)

pub concat-perm {ℓ} :
    {A : Type ℓ} {ls ls' : List (List A)} → Perm ls ls' → Perm (concat ls) (concat ls')
concat-perm p = ∥∥₁_elim p Perm-prop concat-permᴰ

module _ (m : Arithmetic) (query : List ℕ) (metric : DistanceMetric) where
  score_at :
      (vs : List VectorRecord) (rs : List SearchResult) (i : ℕ)
      → AreScores m query metric vs rs
      → i < length vs
      → (v : VectorRecord) × (get_elem? vs i ≡ some v)
        × (score m query metric v ≡ ok (nth no_result rs i))
  score_at [] rs i h b = absurd (omega arith)
  score_at (v ∷ vs) [] i h b = absurd h
  score_at (v ∷ vs) (r ∷ rs) zero (same, scored, rest) b = (v, refl, rw (scored, ← same) refl)
  score_at (v ∷ vs) (r ∷ rs) (suc i) (same, scored, rest) b = score_at vs rs i rest (omega arith)

  module _ (vectors : List VectorRecord) (rs : List SearchResult)
      (scores : AreScores m query metric vectors rs) where
    scan_partition-map :
        (part : List ℤ)
        → All (IsPosition (length vectors)) part
        → scan_partition m query metric vectors part ≡ ok (map (hit rs) part)
    unfolding scan_partition
    scan_partition-map [] h = refl
    scan_partition-map (negsuc i ∷ part) h = absurd h.0
    scan_partition-map (pos i ∷ part) h =
        let (v, found, e) = score_at vectors rs i scores h.0 in
        rw (found, e, scan_partition-map part h.1) refl

    abbrev pub part_of : List (List ℤ) → CentDist → List ℤ
    part_of parts p = nth [] parts p.idx

    part_at :
        (parts : List (List ℤ)) (i : ℕ)
        → All (All (IsPosition (length vectors))) parts
        → i < length parts
        → (part : List ℤ) × (get_elem? parts i ≡ some part)
          × (part ≡ nth [] parts i)
          × All (IsPosition (length vectors)) part
    part_at [] i valid b = absurd (omega arith)
    part_at (p ∷ parts) zero valid b = (p, refl, refl, valid.0)
    part_at (p ∷ parts) (suc i) valid b = part_at parts i valid.1 (omega arith)

    pub scan_probes-map :
        (parts : List (List ℤ)) (ps : List CentDist)
        → All (All (IsPosition (length vectors))) parts
        → All (λ p. p.idx < length parts) ps
        → scan_probes m query metric vectors parts ps
          ≡ ok (map (hit rs) (concat (map (part_of parts) ps)))
    unfolding scan_probes
    scan_probes-map parts [] valid h = refl
    scan_probes-map parts (p ∷ ps) valid h =
        let (part, found, e, ok_part) = part_at parts p.idx valid h.0 in
        rw (found, scan_partition-map part ok_part, scan_probes-map parts ps valid h.1)
          (ap ok (
            ap (λ l. map (hit rs) l ++ map (hit rs) (concat (map (part_of parts) ps))) e
            ∙ sym (map-append (hit rs) (part_of parts p) (concat (map (part_of parts) ps)))))

  -- The distances to the centroids can be taken, and number them in order.
  pub centroid_distances_total :
      (room i : ℕ) (cs : List (List ℕ))
      → IsTotalMetric metric
      → AreLong (length query) cs
      → length cs ≡ room
      → (ds : List CentDist) × (centroid_distances m query metric room i cs ≡ ok ds)
        × (map (λ (p : CentDist). p.idx) ds ≡ nats i room)
  unfolding centroid_distances
  centroid_distances_total room i [] t h e =
      (replicate room (record { idx = 0; d = 0 }), refl, rw (← e) refl)
  centroid_distances_total zero i (c ∷ cs) t h e = absurd (omega arith)
  centroid_distances_total (suc room) i (c ∷ cs) t h e =
      let (d, scored) = total_distance m query c metric t (sym h.0) in
      let (ds, rest, ids) = centroid_distances_total room (suc i) cs t h.1 (omega arith) in
      (record { idx = i; d = d } ∷ ds, rw (scored, rest) refl, ap (◌∷◌ i) ids)
