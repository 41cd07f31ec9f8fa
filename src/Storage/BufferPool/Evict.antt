-- ===== src/Storage/BufferPool/Evict.antt =====
-- `evict` of storage/buffer_pool.go, against the ideal cache.
use golance_db.Prelude.{
  ℕ, zero, suc, ◌+◌, ◌≤◌, ◌≡◌, ◌≢◌, refl, ap, sym, ◌∙◌, true, false, [], ◌∷◌, Option, none, some,
  length, All, arith, Bool-cases, Option-cases, inl, inr,
}
use golance_db.Prelude.Int.{ℤ, pos, ltb_ℤ, int_laws}
use golance_db.Prelude.Dict
use golance_db.Prelude.Dict.{dec_cases, keys, Distinct}
use golance_db.Bytes.{Bytes, Bytes-discrete}
use golance_db.Storage.BufferPool.{
  BufferPool, CacheEntry, back, remove_back, drop_entry, evict_back, evict_loop, evict,
}
use golance_db.Storage.BufferPool.View.{View, total, within, keep, keep_all, keep-remove_back}
use mathlib.Core.Logic.{ite, if_pos, if_neg}

-- The entry of the map for a buffer of the view.
abbrev pub entry_of : Bytes → Option Bytes → Option CacheEntry
entry_of k none = none
entry_of k (some bytes) = some (record { key = k; bytes = bytes; size = pos (length bytes) })

-- The map, the list and the counter of the pool hold the same buffers as the view, each once.
pub record Represents (capacity : ℤ) (p : BufferPool) (v : View) : Type 0 where
  pub limit : p.capacity ≡ capacity
  pub lru : p.lru ≡ keys v
  pub entries :
      (k : Bytes) → Dict.get Bytes-discrete k p.entries ≡ entry_of k (Dict.get Bytes-discrete k v)
  pub unique : Distinct (keys p.entries)
  pub count : length p.entries ≡ length v
  pub used : p.used ≡ pos (total v)
  pub distinct : Distinct (keys v)

module _ (k b : Bytes) where
  back-keys : (v : View) → back v ≡ some (k, b) → back (keys v) ≡ some k
  unfolding back
  back-keys [] h = cc
  back-keys (x ∷ []) h = ground arith
  back-keys (x ∷ y ∷ v) h = back-keys (y ∷ v) h

  total-remove_back : (v : View) → back v ≡ some (k, b) → total (remove_back v) + length b ≡ total v
  unfolding back remove_back
  total-remove_back [] h = cc
  total-remove_back (x ∷ []) h = ground arith
  total-remove_back (x ∷ y ∷ v) h = ground (arith, total-remove_back (y ∷ v) h)

  length-remove_back : (v : View) → back v ≡ some (k, b) → length (remove_back v) + 1 ≡ length v
  unfolding back remove_back
  length-remove_back [] h = cc
  length-remove_back (x ∷ []) h = omega arith
  length-remove_back (x ∷ y ∷ v) h = omega (arith, length-remove_back (y ∷ v) h)

  back_ne : (j : Bytes) (v : View) → back v ≡ some (k, b) → All (λ i. i ≢ j) (keys v) → k ≢ j
  unfolding back
  back_ne j [] h p = cc
  back_ne j (x ∷ []) h p = λ e. p.0 (ground arith)
  back_ne j (x ∷ y ∷ v) h p = back_ne j (y ∷ v) h p.1

  get-back :
      (v : View) → back v ≡ some (k, b) → Distinct (keys v) → Dict.get Bytes-discrete k v ≡ some b
  unfolding back Dict.get
  get-back [] h d = cc
  get-back (x ∷ []) h d = ground arith
  get-back (x ∷ y ∷ v) h d =
      rw (if_neg _ (λ e. back_ne x.0 (y ∷ v) h d.0 (sym e))) (get-back (y ∷ v) h d.1)

  get-remove_back :
      (j : Bytes) (v : View)
      → back v ≡ some (k, b)
      → Distinct (keys v)
      → Dict.get Bytes-discrete j (remove_back v)
        ≡ ite (Bytes-discrete k j) none (Dict.get Bytes-discrete j v)
  unfolding back remove_back Dict.get
  get-remove_back j [] h d = cc
  get-remove_back j (x ∷ []) h d = ground arith
  get-remove_back j (x ∷ y ∷ v) h d =
      let ne = back_ne x.0 (y ∷ v) h d.0 in ground (arith, get-remove_back j (y ∷ v) h d.1, ne)

keys-remove_back : (v : View) → remove_back (keys v) ≡ keys (remove_back v)
unfolding remove_back
keys-remove_back [] = refl
keys-remove_back (x ∷ []) = refl
keys-remove_back (x ∷ y ∷ v) = ap (◌∷◌ x.0) (keys-remove_back (y ∷ v))

All-remove_back : (P : Bytes → Type 0) (v : View) → All P (keys v) → All P (keys (remove_back v))
unfolding remove_back
All-remove_back P [] p = tt
All-remove_back P (x ∷ []) p = tt
All-remove_back P (x ∷ y ∷ v) p = (p.0, All-remove_back P (y ∷ v) p.1)

remove_back-Distinct : (v : View) → Distinct (keys v) → Distinct (keys (remove_back v))
unfolding remove_back
remove_back-Distinct [] d = tt
remove_back-Distinct (x ∷ []) d = tt
remove_back-Distinct (x ∷ y ∷ v) d =
    (All-remove_back (λ j. j ≢ x.0) (y ∷ v) d.0, remove_back-Distinct (y ∷ v) d.1)

pub ite-entry_of :
    {P : Type 0} (j : Bytes) (d : Dec P) (o : Option Bytes)
    → ite d none (entry_of j o) ≡ entry_of j (ite d none o)
ite-entry_of j d o = elim (dec_cases d) [
  | inl e ↦ if_pos d e none (entry_of j o) ∙ ap (entry_of j) (sym (if_pos d e none o))
  | inr e ↦ if_neg d e none (entry_of j o) ∙ ap (entry_of j) (sym (if_neg d e none o))
]

-- A round of `evict` drops the least recently used buffer.
evict_back-Represents :
    {capacity : ℤ} (p : BufferPool) (v : View) (k b : Bytes)
    → back v ≡ some (k, b)
    → Represents capacity p v
    → Represents capacity (evict_back k p) (remove_back v)
unfolding evict_back
evict_back-Represents p v k b h r =
    let found : Dict.get Bytes-discrete k p.entries
        ≡ some (record { key = k; bytes = b; size = pos (length b) }) =
      r.entries k ∙ ap (entry_of k) (get-back k b v h r.distinct) in
    rw (found, drop_entry)
      (record {
        limit = r.limit;
        lru = ap remove_back r.lru ∙ keys-remove_back v;
        entries = λ j.
            rw
              (
                Dict.get-delete Bytes-discrete k j p.entries r.unique,
                get-remove_back k b j v h r.distinct,
                r.entries j,
              )
              (ite-entry_of j (Bytes-discrete k j) (Dict.get Bytes-discrete j v));
        unique = Dict.delete-Distinct Bytes-discrete k p.entries r.unique;
        count = omega (
          arith,
          Dict.length-delete Bytes-discrete k _ p.entries found,
          length-remove_back k b v h,
          r.count,
        );
        used = rw r.used (omega (int_laws, total-remove_back k b v h));
        distinct = remove_back-Distinct v r.distinct;
      })

back_cons : (x : Bytes × Bytes) (v : View) → back (x ∷ v) ≢ none
unfolding back
back_cons x [] h = cc
back_cons x (y ∷ v) h = back_cons y v h

length-keys : (v : View) → length (keys v) ≡ length v
length-keys [] = refl
length-keys (x ∷ v) = ap suc (length-keys v)

module _ (fuel : ℕ) (p : BufferPool) where
  evict_loop_under : ltb_ℤ p.capacity p.used ≡ false → evict_loop (suc fuel) p ≡ p
  unfolding evict_loop
  evict_loop_under h = ground arith

  evict_loop_empty : back p.lru ≡ none → evict_loop (suc fuel) p ≡ p
  unfolding evict_loop
  evict_loop_empty h = ground arith

  evict_loop_over :
      (k : Bytes)
      → ltb_ℤ p.capacity p.used ≡ true
      → back p.lru ≡ some k
      → evict_loop (suc fuel) p ≡ evict_loop fuel (evict_back k p)
  unfolding evict_loop
  evict_loop_over k h e = ground arith

back-keys_empty : (v : View) → back v ≡ none → back (keys v) ≡ none
unfolding back
back-keys_empty [] h = refl
back-keys_empty (x ∷ v) h = absurd (back_cons x v h)

keep_empty :
    {capacity : ℤ} (p : BufferPool) (v : View)
    → back v ≡ none
    → Represents capacity p v
    → Represents capacity p (keep capacity 0 v)
unfolding keep
keep_empty p [] h r = r
keep_empty p (x ∷ v) h r = absurd (back_cons x v h)

within_zero :
    (capacity : ℤ) (n : ℕ) → ltb_ℤ capacity (pos n) ≡ false → within capacity (0 + n) ≡ true
within_zero capacity n h = ground arith

within_zero_over :
    (capacity : ℤ) (n : ℕ) → ltb_ℤ capacity (pos n) ≡ true → within capacity (0 + n) ≡ false
within_zero_over capacity n h = ground arith

-- With a round for each buffer the loop leaves the longest prefix that fits.
evict_loop-Represents :
    {capacity : ℤ} (fuel : ℕ) (p : BufferPool) (v : View)
    → Represents capacity p v
    → length v ≤ fuel
    → Represents capacity (evict_loop fuel p) (keep capacity 0 v)
evict_loop-Represents zero p [] r h = unfold evict_loop keep in r
evict_loop-Represents zero p (x ∷ v) r h = absurd (omega arith)
evict_loop-Represents {capacity} (suc fuel) p v r h =
    let test : ltb_ℤ p.capacity p.used ≡ ltb_ℤ capacity (pos (total v)) =
      λ i. ltb_ℤ (r.limit i) (r.used i) in
    elim (Bool-cases (ltb_ℤ capacity (pos (total v)))) [
      | inr under ↦
          rw
            (
              evict_loop_under fuel p (test ∙ under),
              keep_all capacity 0 v (within_zero capacity (total v) under),
            )
            r
      | inl over ↦ elim (Option-cases (back v)) [
        | inl empty ↦
            rw (evict_loop_empty fuel p (ap back r.lru ∙ back-keys_empty v empty))
              (keep_empty p v empty r)
        | inr ((k, b), found) ↦
            rw
              (
                evict_loop_over fuel p k (test ∙ over) (ap back r.lru ∙ back-keys k b v found),
                ← keep-remove_back capacity 0 v (within_zero_over capacity (total v) over),
              )
              (evict_loop-Represents fuel (evict_back k p) (remove_back v)
                (evict_back-Represents p v k b found r)
                (omega (arith, length-remove_back k b v found)))
      ]
    ]

pub evict-Represents :
    {capacity : ℤ} (p : BufferPool) (v : View)
    → Represents capacity p v
    → Represents capacity (evict p) (keep capacity 0 v)
unfolding evict
evict-Represents p v r =
    evict_loop-Represents (length p.lru) p v r (omega (arith, ap length r.lru, length-keys v))
