-- ===== src/Storage/BufferPool.antt =====
-- storage/buffer_pool.go: an LRU cache of byte buffers. The methods hold the pool's lock from
-- their first read to their last write, so each is one step on the pool.
pub mod View
pub mod Evict
pub mod Refines
pub mod Runs
use golance_db.Prelude.{
  ℕ, zero, suc, Bool, true, false, List, [], ◌∷◌, Option, none, some, length, if◌then◌else◌,
}
use golance_db.Prelude.Int.{ℤ, pos, eqb_ℤ, ltb_ℤ, ◌+ℤ◌, ◌-ℤ◌}
use golance_db.Prelude.Dict
use golance_db.Bytes.{Bytes, Bytes-discrete}
use mathlib.Core.Logic.{ite}

-- `element`, the node of the list, is known by the key: an entry has one node.
pub record CacheEntry : Type 0 where
  pub key : Bytes
  pub bytes : Bytes
  pub size : ℤ

-- `lru` is the list from its front to its back. A node's value is the entry that the map holds
-- under the node's key, the same pointer, so the node is written as the key.
pub record BufferPool : Type 0 where
  pub capacity : ℤ
  pub used : ℤ
  pub entries : List (Bytes × CacheEntry)
  pub lru : List Bytes

unfoldable pub new_buffer_pool : ℤ → BufferPool
new_buffer_pool capacity = record { capacity = capacity; used = pos 0; entries = []; lru = [] }

-- `l.Remove(e)`, and `l.MoveToFront(e)`
unfoldable pub remove : Bytes → List Bytes → List Bytes
remove k [] = []
remove k (j ∷ js) = let rest = remove k js in ite (Bytes-discrete j k) js (j ∷ rest)

abbrev pub move_to_front : Bytes → List Bytes → List Bytes
move_to_front k l = k ∷ remove k l

-- `l.Back()`
unfoldable pub back {ℓ} : {A : Type ℓ} → List A → Option A
back [] = none
back (k ∷ []) = some k
back (k ∷ j ∷ js) = back (j ∷ js)

-- `l.Remove(l.Back())`
unfoldable pub remove_back {ℓ} : {A : Type ℓ} → List A → List A
remove_back [] = []
remove_back (k ∷ []) = []
remove_back (k ∷ j ∷ js) = k ∷ remove_back (j ∷ js)

-- `delete(p.entries, entry.key); p.used -= entry.size`, for the entry of the last node
unfoldable pub drop_entry : Option CacheEntry → BufferPool → BufferPool
drop_entry none p = p
drop_entry (some entry) p = record p {
  entries = Dict.delete Bytes-discrete entry.key p.entries;
  used = p.used -ℤ entry.size;
}

-- The body of the loop of `evict`, for the node that `Back` gave.
unfoldable pub evict_back : Bytes → BufferPool → BufferPool
unfolding drop_entry
evict_back k p =
    drop_entry (Dict.get Bytes-discrete k p.entries) (record p { lru = remove_back p.lru })

-- `evict`: each round removes a node, so as many rounds as there are nodes are enough.
unfoldable pub evict_loop : ℕ → BufferPool → BufferPool
evict_loop zero p = p
evict_loop (suc fuel) p = elim (ltb_ℤ p.capacity p.used) [
  | false ↦ p
  | true ↦ elim (back p.lru) [ none ↦ p | some k ↦ evict_loop fuel (evict_back k p) ]
]

unfoldable pub evict : BufferPool → BufferPool
evict p = evict_loop (length p.lru) p

unfoldable pub get : Bytes → BufferPool → Option Bytes × BufferPool
get key p =
    if eqb_ℤ p.capacity (pos 0) then (none, p) else elim (Dict.get Bytes-discrete key p.entries) [
      | none ↦ (none, p)
      | some entry ↦ (some entry.bytes, record p { lru = move_to_front key p.lru })
    ]

-- The two branches of `Put`, before `p.evict()`.
unfoldable pub store : Bytes → Bytes → Option CacheEntry → BufferPool → BufferPool
store key bytes (some entry) p = record p {
  entries =
      Dict.put Bytes-discrete key (record entry { bytes = bytes; size = pos (length bytes) })
        p.entries;
  used = p.used -ℤ entry.size +ℤ pos (length bytes);
  lru = move_to_front key p.lru;
}
store key bytes none p = record p {
  entries =
      Dict.put Bytes-discrete key (record { key = key; bytes = bytes; size = pos (length bytes) })
        p.entries;
  used = p.used +ℤ pos (length bytes);
  lru = key ∷ p.lru;
}

unfoldable pub put : Bytes → Bytes → BufferPool → BufferPool
put key bytes p =
    if eqb_ℤ p.capacity (pos 0)
    then p
    else evict (store key bytes (Dict.get Bytes-discrete key p.entries) p)

-- `Remove`
unfoldable pub remove_key : Bytes → BufferPool → BufferPool
remove_key key p = elim (Dict.get Bytes-discrete key p.entries) [
  | none ↦ p
  | some entry ↦ record p {
    lru = remove key p.lru;
    entries = Dict.delete Bytes-discrete key p.entries;
    used = p.used -ℤ entry.size;
  }
]

unfoldable pub stats : BufferPool → ℤ × ℕ
stats p = (p.used, length p.entries)
