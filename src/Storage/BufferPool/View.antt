-- ===== src/Storage/BufferPool/View.antt =====
-- What the pool of storage/buffer_pool.go promises: an ideal cache that is one list of buffers,
-- the most recently used first, and keeps the longest prefix that fits the capacity.
use golance_db.Prelude.{
  ℕ, ◌+◌, ◌≡◌, refl, Bool, true, false, not, List, [], ◌∷◌, Option, none, some, length,
  if◌then◌else◌, arith,
}
use golance_db.Prelude.Int.{ℤ, pos, ltb_ℤ, eqb_ℤ}
use golance_db.Prelude.Dict
use golance_db.Bytes.{Bytes, Bytes-discrete}
use golance_db.Storage.BufferPool.{remove_back}

abbrev pub View : Type 0
View = List (Bytes × Bytes)

abbrev pub total : View → ℕ
total [] = 0
total ((k, bytes) ∷ v) = length bytes + total v

-- n bytes are not over the capacity
abbrev pub within : ℤ → ℕ → Bool
within capacity n = not (ltb_ℤ capacity (pos n))

-- The longest prefix that fits, with `acc` bytes before it.
unfoldable pub keep : ℤ → ℕ → View → View
keep capacity acc [] = []
keep capacity acc ((k, bytes) ∷ v) =
    let rest = keep capacity (acc + length bytes) v in
    if within capacity (acc + length bytes) then (k, bytes) ∷ rest else []

abbrev pub touch : Bytes → Bytes → View → View
touch k bytes v = (k, bytes) ∷ Dict.delete Bytes-discrete k v

unfoldable pub view_get : ℤ → Bytes → View → Option Bytes × View
view_get capacity k v =
    if eqb_ℤ capacity (pos 0)
    then (none, v)
    else elim (Dict.get Bytes-discrete k v) [ none ↦ (none, v) | some b ↦ (some b, touch k b v) ]

unfoldable pub view_put : ℤ → Bytes → Bytes → View → View
view_put capacity k bytes v =
    if eqb_ℤ capacity (pos 0) then v else keep capacity 0 (touch k bytes v)

unfoldable pub view_remove : Bytes → View → View
view_remove k v = Dict.delete Bytes-discrete k v

pub keep_all :
    (capacity : ℤ) (acc : ℕ) (v : View)
    → within capacity (acc + total v) ≡ true
    → keep capacity acc v ≡ v
unfolding keep
keep_all capacity acc [] h = refl
keep_all capacity acc ((k, bytes) ∷ v) h =
    let rest = keep_all capacity (acc + length bytes) v in ground (arith, rest)

pub keep-remove_back :
    (capacity : ℤ) (acc : ℕ) (v : View)
    → within capacity (acc + total v) ≡ false
    → keep capacity acc (remove_back v) ≡ keep capacity acc v
unfolding keep remove_back
keep-remove_back capacity acc [] h = refl
keep-remove_back capacity acc ((k, b) ∷ []) h = ground arith
keep-remove_back capacity acc ((k, b) ∷ (j, c) ∷ v) h =
    ground (arith, keep-remove_back capacity (acc + length b) ((j, c) ∷ v))

-- What is kept fits.
pub total-keep :
    (capacity : ℤ) (acc : ℕ) (v : View)
    → within capacity acc ≡ true
    → within capacity (acc + total (keep capacity acc v)) ≡ true
unfolding keep
total-keep capacity acc [] h = ground arith
total-keep capacity acc ((k, b) ∷ v) h = ground (arith, total-keep capacity (acc + length b) v)
