-- ===== src/Storage/BufferPool/Runs.antt =====
-- Sequences of calls on the pool of storage/buffer_pool.go.
use golance_db.Prelude.{
  ℕ, ◌+◌, ◌≤◌, ◌≡◌, refl, ap, ◌∙◌, true, false, List, [], ◌∷◌, Option, none, some, length,
  if◌then◌else◌, arith, Bool-cases, inl, inr, Option-cases,
}
use golance_db.Prelude.Int.{ℤ, pos, eqb_ℤ, ◌≤ℤ◌, ◌-ℤ◌, int_laws}
use golance_db.Prelude.Dict
use mathlib.Core.Logic.{if_pos}
use native.Mathlib.Nat.{zero-add}
use golance_db.Bytes.{Bytes, Bytes-discrete}
use golance_db.Storage.BufferPool.{
  BufferPool, CacheEntry, new_buffer_pool, get, put, remove_key, remove,
}
use golance_db.Storage.BufferPool.View.{
  View, total, within, keep, touch, view_get, view_put, view_remove, total-keep,
}
use golance_db.Storage.BufferPool.Evict.{Represents, entry_of, ite-entry_of}
use golance_db.Storage.BufferPool.Refines.{
  get-refines, put-refines, new_buffer_pool-Represents, remove-keys, total-delete, delete_absent,
}

pub data Call : Type 0 where
  read forget : Bytes → Call
  write : Bytes → Bytes → Call

-- What the calls of `Get` return, in order, and the pool that is left.
unfoldable pub run : List Call → BufferPool → List (Option Bytes) × BufferPool
run [] p = ([], p)
run (Call.read k ∷ calls) p =
    let (found, p') = get k p in let (results, p'') = run calls p' in (found ∷ results, p'')
run (Call.write k b ∷ calls) p = run calls (put k b p)
run (Call.forget k ∷ calls) p = run calls (remove_key k p)

-- The same calls on the ideal cache.
unfoldable pub view_run : ℤ → List Call → View → List (Option Bytes) × View
view_run capacity [] v = ([], v)
view_run capacity (Call.read k ∷ calls) v =
    let (found, v') = view_get capacity k v in
    let (results, v'') = view_run capacity calls v' in (found ∷ results, v'')
view_run capacity (Call.write k b ∷ calls) v = view_run capacity calls (view_put capacity k b v)
view_run capacity (Call.forget k ∷ calls) v = view_run capacity calls (view_remove k v)

module _ (k : Bytes) (p : BufferPool) where
  remove_miss : Dict.get Bytes-discrete k p.entries ≡ none → remove_key k p ≡ p
  unfolding remove_key
  remove_miss h = rw (h, remove_key)

  remove_hit :
      (e : CacheEntry)
      → Dict.get Bytes-discrete k p.entries ≡ some e
      → remove_key k p ≡ record p {
        lru = remove k p.lru;
        entries = Dict.delete Bytes-discrete k p.entries;
        used = p.used -ℤ e.size;
      }
  unfolding remove_key
  remove_hit e h = rw (h, remove_key)

remove_key-Represents :
    {capacity : ℤ} (p : BufferPool) (v : View) (k : Bytes) (o : Option Bytes)
    → Dict.get Bytes-discrete k v ≡ o
    → Represents capacity p v
    → Represents capacity (remove_key k p) (view_remove k v)
unfolding view_remove
remove_key-Represents p v k none h r =
    rw (remove_miss k p (r.entries k ∙ ap (entry_of k) h), delete_absent k v h) r
remove_key-Represents p v k (some b) h r =
    let found = r.entries k ∙ ap (entry_of k) h in
    rw (remove_hit k p _ found) (record {
      limit = r.limit;
      lru = ap (remove k) r.lru ∙ remove-keys k v;
      entries = λ j.
          rw
            (
              Dict.get-delete Bytes-discrete k j p.entries r.unique,
              Dict.get-delete Bytes-discrete k j v r.distinct,
              r.entries j,
            )
            (ite-entry_of j (Bytes-discrete k j) (Dict.get Bytes-discrete j v));
      unique = Dict.delete-Distinct Bytes-discrete k p.entries r.unique;
      count = omega (
        arith,
        Dict.length-delete Bytes-discrete k _ p.entries found,
        Dict.length-delete Bytes-discrete k b v h,
        r.count,
      );
      used = rw r.used (omega (int_laws, total-delete k b v h));
      distinct = Dict.delete-Distinct Bytes-discrete k v r.distinct;
    })

-- Whatever the calls, a pool in step with a view returns what the ideal cache returns, and ends
-- in step with it.
pub run-refines :
    {capacity : ℤ} (calls : List Call) (p : BufferPool) (v : View)
    → Represents capacity p v
    → ((run calls p).0 ≡ (view_run capacity calls v).0)
      × Represents capacity (run calls p).1 (view_run capacity calls v).1
unfolding run view_run
run-refines [] p v r = (refl, r)
run-refines {capacity} (Call.read k ∷ calls) p v r =
    let (same, r') = get-refines p v k r in
    let (rest, r'') = run-refines calls (get k p).1 (view_get capacity k v).1 r' in
    ((λ i. same i ∷ rest i), r'')
run-refines {capacity} (Call.write k b ∷ calls) p v r =
    run-refines calls (put k b p) (view_put capacity k b v) (put-refines p v k b r)
run-refines (Call.forget k ∷ calls) p v r =
    run-refines calls (remove_key k p) (view_remove k v)
      (remove_key-Represents p v k (Dict.get Bytes-discrete k v) refl r)

-- A view that fits a capacity that is not negative still fits after each call.
within_less : (capacity : ℤ) (n m : ℕ) → n ≤ m → within capacity m ≡ true → within capacity n ≡ true
within_less capacity n m h w = ground arith

view_get-within :
    (capacity : ℤ) (k : Bytes) (v : View) (o : Option Bytes)
    → Dict.get Bytes-discrete k v ≡ o
    → within capacity (total v) ≡ true
    → within capacity (total (view_get capacity k v).1) ≡ true
unfolding view_get
view_get-within capacity k v none h w = ground arith
view_get-within capacity k v (some b) h w = elim (Bool-cases (eqb_ℤ capacity (pos 0))) [
  | inl z ↦ rw z w
  | inr z ↦ rw (z, h) (within_less capacity _ (total v) (omega (arith, total-delete k b v h)) w)
]

view_put-within :
    (c : ℕ) (k b : Bytes) (v : View)
    → within (pos c) (total v) ≡ true
    → within (pos c) (total (view_put (pos c) k b v)) ≡ true
unfolding view_put
view_put-within c k b v w = elim (Bool-cases (eqb_ℤ (pos c) (pos 0))) [
  | inl z ↦ rw z w
  | inr z ↦ rw z (
      within_less (pos c) _ (0 + total (keep (pos c) 0 (touch k b v))) (omega arith)
        (total-keep (pos c) 0 (touch k b v) (ground arith)))
]

view_remove-within :
    (c : ℕ) (k : Bytes) (v : View) (o : Option Bytes)
    → Dict.get Bytes-discrete k v ≡ o
    → within (pos c) (total v) ≡ true
    → within (pos c) (total (view_remove k v)) ≡ true
unfolding view_remove
view_remove-within c k v none h w = rw (delete_absent k v h) w
view_remove-within c k v (some b) h w =
    within_less (pos c) _ (total v) (omega (arith, total-delete k b v h)) w

view_run-within :
    (c : ℕ) (calls : List Call) (v : View)
    → within (pos c) (total v) ≡ true
    → within (pos c) (total (view_run (pos c) calls v).1) ≡ true
unfolding view_run
view_run-within c [] v w = w
view_run-within c (Call.read k ∷ calls) v w =
    view_run-within c calls (view_get (pos c) k v).1
      (view_get-within (pos c) k v (Dict.get Bytes-discrete k v) refl w)
view_run-within c (Call.write k b ∷ calls) v w =
    view_run-within c calls (view_put (pos c) k b v) (view_put-within c k b v w)
view_run-within c (Call.forget k ∷ calls) v w =
    view_run-within c calls (view_remove k v)
      (view_remove-within c k v (Dict.get Bytes-discrete k v) refl w)

within→le : (c n : ℕ) → within (pos c) n ≡ true → pos n ≤ℤ pos c
within→le c n h = ground arith

-- Whatever is called on a new pool of capacity c, the bytes in use are the sum of the lengths of
-- the buffers of the ideal cache, and never more than c.
pub run_bounded :
    (c : ℕ) (calls : List Call)
    → ((run calls (new_buffer_pool (pos c))).1.used ≡ pos (total (view_run (pos c) calls []).1))
      × ((run calls (new_buffer_pool (pos c))).1.used ≤ℤ pos c)
run_bounded c calls =
    let (_, r) =
      run-refines calls (new_buffer_pool (pos c)) [] (new_buffer_pool-Represents (pos c)) in
    let fits = within→le c _ (view_run-within c calls [] (ground arith)) in (r.used, rw r.used fits)

get-keep :
    (capacity : ℤ) (k b : Bytes) (v : View)
    → Dict.get Bytes-discrete k (keep capacity 0 (touch k b v))
      ≡ (if within capacity (length b) then some b else none)
unfolding keep Dict.get
get-keep capacity k b v = rw zero-add (elim (Bool-cases (within capacity (length b))) [
  | inl w ↦ rw w (if_pos (Bytes-discrete k k) refl (some b) _)
  | inr w ↦ rw w
])

view_get-fst :
    (capacity : ℤ) (k : Bytes) (v : View)
    → eqb_ℤ capacity (pos 0) ≡ false
    → (view_get capacity k v).0 ≡ Dict.get Bytes-discrete k v
unfolding view_get
view_get-fst capacity k v z = elim (Option-cases (Dict.get Bytes-discrete k v)) [
  | inl miss ↦ rw (z, miss)
  | inr (b, hit) ↦ rw (z, hit)
]

view_put-on :
    (capacity : ℤ) (k b : Bytes) (v : View)
    → eqb_ℤ capacity (pos 0) ≡ false
    → view_put capacity k b v ≡ keep capacity 0 (touch k b v)
unfolding view_put
view_put-on capacity k b v z = rw z

-- On a pool in step with a view, of a capacity that is not 0, a `Get` right after a `Put` of the
-- same key returns the buffer if that fits the capacity, and misses if not.
pub get-put :
    {capacity : ℤ} (p : BufferPool) (v : View) (k b : Bytes)
    → Represents capacity p v
    → eqb_ℤ capacity (pos 0) ≡ false
    → (get k (put k b p)).0 ≡ (if within capacity (length b) then some b else none)
get-put {capacity} p v k b r z =
    (get-refines (put k b p) (view_put capacity k b v) k (put-refines p v k b r)).0
    ∙ (view_get-fst capacity k (view_put capacity k b v) z
        ∙ (ap (Dict.get Bytes-discrete k) (view_put-on capacity k b v z) ∙ get-keep capacity k b v))
