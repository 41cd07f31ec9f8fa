-- ===== src/Storage/BufferPool/Refines.antt =====
-- The pool of storage/buffer_pool.go does what the ideal cache does, call by call.
use golance_db.Prelude.{
  ◌+◌, ◌≡◌, ◌≢◌, refl, ap, sym, ◌∙◌, true, false, [], ◌∷◌, Option, none, some, length, All, arith,
  Bool-cases, inl, inr,
}
use golance_db.Prelude.Int.{ℤ, pos, eqb_ℤ, int_laws}
use golance_db.Prelude.Dict
use golance_db.Prelude.Dict.{dec_cases, keys, Distinct}
use golance_db.Bytes.{Bytes, Bytes-discrete}
use golance_db.Storage.BufferPool.{
  BufferPool, CacheEntry, new_buffer_pool, remove, get, store, put, stats, evict,
}
use golance_db.Storage.BufferPool.View.{View, total, touch, view_get, view_put}
use golance_db.Storage.BufferPool.Evict.{Represents, entry_of, evict-Represents}
use mathlib.Core.Logic.{ite, if_pos, if_neg}

pub remove-keys : (k : Bytes) (v : View) → remove k (keys v) ≡ keys (Dict.delete Bytes-discrete k v)
unfolding remove Dict.delete
remove-keys k [] = refl
remove-keys k (x ∷ v) = ground (arith, remove-keys k v)

pub total-delete :
    (k b : Bytes) (v : View)
    → Dict.get Bytes-discrete k v ≡ some b
    → total (Dict.delete Bytes-discrete k v) + length b ≡ total v
unfolding Dict.get Dict.delete
total-delete k b [] h = cc
total-delete k b (x ∷ v) h = ground (arith, total-delete k b v)

All_absent :
    (k : Bytes) (v : View)
    → Distinct (keys v)
    → All (λ j. j ≢ k) (keys (Dict.delete Bytes-discrete k v))
All_absent k v d =
    Dict.absent_of_get Bytes-discrete k (Dict.delete Bytes-discrete k v)
      (Dict.get-delete Bytes-discrete k k v d ∙ if_pos (Bytes-discrete k k) refl _ _)

touch-Distinct : (k b : Bytes) (v : View) → Distinct (keys v) → Distinct (keys (touch k b v))
touch-Distinct k b v d = (All_absent k v d, Dict.delete-Distinct Bytes-discrete k v d)

get-touch :
    (k j b : Bytes) (v : View)
    → Distinct (keys v)
    → Dict.get Bytes-discrete j (touch k b v)
      ≡ ite (Bytes-discrete k j) (some b) (Dict.get Bytes-discrete j v)
unfolding Dict.get
get-touch k j b v d = ground (arith, Dict.get-delete Bytes-discrete k j v d)

touch_same :
    (k j b : Bytes) (v : View)
    → Dict.get Bytes-discrete k v ≡ some b
    → Distinct (keys v)
    → Dict.get Bytes-discrete j (touch k b v) ≡ Dict.get Bytes-discrete j v
touch_same k j b v h d = get-touch k j b v d ∙ elim (dec_cases (Bytes-discrete k j)) [
  | inl e ↦ if_pos (Bytes-discrete k j) e _ _ ∙ (sym h ∙ ap (λ a. Dict.get Bytes-discrete a v) e)
  | inr e ↦ if_neg (Bytes-discrete k j) e _ _
]

pub delete_absent :
    (k : Bytes) (v : View) → Dict.get Bytes-discrete k v ≡ none → Dict.delete Bytes-discrete k v ≡ v
unfolding Dict.get Dict.delete
delete_absent k [] h = refl
delete_absent k (x ∷ v) h = ground (arith, delete_absent k v)

abbrev entry : Bytes → Bytes → CacheEntry
entry k b = record { key = k; bytes = b; size = pos (length b) }

ite-entry :
    (k j b : Bytes) (d : Dec (k ≡ j)) (o : Option Bytes)
    → ite d (some (entry k b)) (entry_of j o) ≡ entry_of j (ite d (some b) o)
ite-entry k j b d o = elim (dec_cases d) [
  | inl e ↦
      if_pos d e (some (entry k b)) (entry_of j o)
      ∙ ((λ i. some (entry (e i) b)) ∙ ap (entry_of j) (sym (if_pos d e (some b) o)))
  | inr e ↦
      if_neg d e (some (entry k b)) (entry_of j o) ∙ ap (entry_of j) (sym (if_neg d e (some b) o))
]

entries_put :
    {capacity : ℤ} (p : BufferPool) (v : View) (k b : Bytes)
    → Represents capacity p v
    → (j : Bytes)
    → Dict.get Bytes-discrete j (Dict.put Bytes-discrete k (entry k b) p.entries)
      ≡ entry_of j (Dict.get Bytes-discrete j (touch k b v))
entries_put p v k b r j =
    rw
      (
        Dict.get-put Bytes-discrete k j (entry k b) p.entries,
        get-touch k j b v r.distinct,
        r.entries j,
      )
      (ite-entry k j b (Bytes-discrete k j) (Dict.get Bytes-discrete j v))

-- `Put` before the eviction
store-Represents :
    {capacity : ℤ} (p : BufferPool) (v : View) (k b : Bytes) (o : Option Bytes)
    → Dict.get Bytes-discrete k v ≡ o
    → Represents capacity p v
    → Represents capacity (store k b (entry_of k o) p) (touch k b v)
unfolding store
store-Represents p v k b none h r = record {
  limit = r.limit;
  lru = ap (◌∷◌ k) (r.lru ∙ ap keys (sym (delete_absent k v h)));
  entries = entries_put p v k b r;
  unique = Dict.put-Distinct Bytes-discrete k _ p.entries r.unique;
  count = omega (
    arith,
    Dict.length-put_new Bytes-discrete k (entry k b) p.entries (r.entries k ∙ ap (entry_of k) h),
    ap length (delete_absent k v h),
    r.count,
  );
  used = rw (r.used, delete_absent k v h) (omega int_laws);
  distinct = touch-Distinct k b v r.distinct;
}
store-Represents p v k b (some old) h r = record {
  limit = r.limit;
  lru = ap (◌∷◌ k) (ap (remove k) r.lru ∙ remove-keys k v);
  entries = entries_put p v k b r;
  unique = Dict.put-Distinct Bytes-discrete k _ p.entries r.unique;
  count = omega (
    arith,
    Dict.length-put_old Bytes-discrete k (entry k b) (entry k old) p.entries
        (r.entries k ∙ ap (entry_of k) h),
    Dict.length-delete Bytes-discrete k old v h,
    r.count,
  );
  used = rw r.used (omega (int_laws, total-delete k old v h));
  distinct = touch-Distinct k b v r.distinct;
}

module _ (k : Bytes) (p : BufferPool) where
  get_off : eqb_ℤ p.capacity (pos 0) ≡ true → get k p ≡ (none, p)
  unfolding get
  get_off z = ground arith

  get_miss :
      eqb_ℤ p.capacity (pos 0) ≡ false
      → Dict.get Bytes-discrete k p.entries ≡ none
      → get k p ≡ (none, p)
  unfolding get
  get_miss z h = ground arith

  get_hit :
      (e : CacheEntry)
      → eqb_ℤ p.capacity (pos 0) ≡ false
      → Dict.get Bytes-discrete k p.entries ≡ some e
      → get k p ≡ (some e.bytes, record p { lru = k ∷ remove k p.lru })
  unfolding get
  get_hit e z h = rw (z, h)

  put_off : (b : Bytes) → eqb_ℤ p.capacity (pos 0) ≡ true → put k b p ≡ p
  unfolding put
  put_off b z = rw z

  put_on :
      (b : Bytes)
      → eqb_ℤ p.capacity (pos 0) ≡ false
      → put k b p ≡ evict (store k b (Dict.get Bytes-discrete k p.entries) p)
  unfolding put
  put_on b z = rw z

touch-Represents :
    {capacity : ℤ} (p : BufferPool) (v : View) (k b : Bytes)
    → Dict.get Bytes-discrete k v ≡ some b
    → Represents capacity p v
    → Represents capacity (record p { lru = k ∷ remove k p.lru }) (touch k b v)
touch-Represents p v k b h r = record {
  limit = r.limit;
  lru = ap (◌∷◌ k) (ap (remove k) r.lru ∙ remove-keys k v);
  entries = λ j. r.entries j ∙ ap (entry_of j) (sym (touch_same k j b v h r.distinct));
  unique = r.unique;
  count = omega (arith, r.count, Dict.length-delete Bytes-discrete k b v h);
  used = r.used ∙ ap pos (omega (arith, total-delete k b v h));
  distinct = touch-Distinct k b v r.distinct;
}

get-Represents :
    {capacity : ℤ} (p : BufferPool) (v : View) (k : Bytes) (o : Option Bytes)
    → Dict.get Bytes-discrete k v ≡ o
    → eqb_ℤ capacity (pos 0) ≡ false
    → Represents capacity p v
    → ((get k p).0 ≡ (view_get capacity k v).0)
      × Represents capacity (get k p).1 (view_get capacity k v).1
unfolding view_get
get-Represents p v k none h z r =
    rw
      (get_miss k p (ap (λ c. eqb_ℤ c (pos 0)) r.limit ∙ z) (r.entries k ∙ ap (entry_of k) h), z, h)
      (refl, r)
get-Represents p v k (some b) h z r =
    rw
      (
        get_hit k p (entry k b) (ap (λ c. eqb_ℤ c (pos 0)) r.limit ∙ z)
            (r.entries k ∙ ap (entry_of k) h),
        z,
        h,
      )
      (refl, touch-Represents p v k b h r)

-- `Get` returns what the ideal cache returns and leaves the pool in step with it.
pub get-refines :
    {capacity : ℤ} (p : BufferPool) (v : View) (k : Bytes)
    → Represents capacity p v
    → ((get k p).0 ≡ (view_get capacity k v).0)
      × Represents capacity (get k p).1 (view_get capacity k v).1
unfolding view_get
get-refines {capacity} p v k r = elim (Bool-cases (eqb_ℤ capacity (pos 0))) [
  | inl z ↦ rw (get_off k p (ap (λ c. eqb_ℤ c (pos 0)) r.limit ∙ z), z) (refl, r)
  | inr z ↦ get-Represents p v k (Dict.get Bytes-discrete k v) refl z r
]

-- `Put` leaves the pool in step with the ideal cache: the buffer is in front, and from the back
-- as many are gone as it takes to fit the capacity.
pub put-refines :
    {capacity : ℤ} (p : BufferPool) (v : View) (k b : Bytes)
    → Represents capacity p v
    → Represents capacity (put k b p) (view_put capacity k b v)
unfolding view_put
put-refines {capacity} p v k b r = elim (Bool-cases (eqb_ℤ capacity (pos 0))) [
  | inl z ↦ rw (put_off k p b (ap (λ c. eqb_ℤ c (pos 0)) r.limit ∙ z), z) r
  | inr z ↦
      rw (put_on k p b (ap (λ c. eqb_ℤ c (pos 0)) r.limit ∙ z), r.entries k, z)
        (evict-Represents (store k b (entry_of k (Dict.get Bytes-discrete k v)) p) (touch k b v)
          (store-Represents p v k b (Dict.get Bytes-discrete k v) refl r))
]

-- `Stats` gives the sum of the lengths of the view's buffers, and their number.
pub stats-refines :
    {capacity : ℤ} (p : BufferPool) (v : View)
    → Represents capacity p v
    → stats p ≡ (pos (total v), length v)
unfolding stats
stats-refines p v r = λ i. (r.used i, r.count i)

pub new_buffer_pool-Represents : (capacity : ℤ) → Represents capacity (new_buffer_pool capacity) []
unfolding new_buffer_pool
new_buffer_pool-Represents capacity = record {
  limit = refl;
  lru = refl;
  entries = λ k. unfold Dict.get in refl;
  unique = tt;
  count = refl;
  used = refl;
  distinct = tt;
}
