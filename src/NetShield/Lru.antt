-- ===== src/NetShield/Lru.antt =====
-- packages/net-shield/src/blocklist.rs, `LruCache`: the decisions that the worker remembers. The
-- HashMap is an association list of which every operation sees the first entry of a key.
pub mod Keys
pub mod Recent
pub mod Evict
pub mod Items
mod Runs
use holy_blocker.NetShield.Radix.{FilterAction}
use holy_blocker.Shared.{
  false, text_eq, [], Bool, ◌++◌, length, member, ◌∷◌, ◌==◌, Option, if◌then◌else◌, Bytes, ℕ, List,
  none, some, true,
}

abbrev pub Entries : Type 0
Entries = List (Bytes × Option FilterAction)

pub record LruCache : Type 0 where
  pub cap : ℕ
  pub map : Entries
  pub order : List Bytes

-- `LruCache::new`
unfoldable pub new : ℕ → LruCache
new cap = record { cap = if cap == 0 then 1 else cap; map = []; order = [] }

-- `map.get(key)`
unfoldable pub map_get : Bytes → Entries → Option (Option FilterAction)
map_get key [] = none
map_get key ((k, v) ∷ entries) = if text_eq key k then some v else map_get key entries

-- `map.remove(key)`
pub map_remove : Bytes → Entries → Entries
map_remove key [] = []
map_remove key ((k, v) ∷ entries) =
    if text_eq key k then entries else (k, v) ∷ map_remove key entries

-- `map.insert(key, value)`
pub map_insert : Bytes → Option FilterAction → Entries → Entries
map_insert key value [] = (key, value) ∷ []
map_insert key value ((k, v) ∷ entries) =
    if text_eq key k then (k, value) ∷ entries else (k, v) ∷ map_insert key value entries

-- `order.remove(pos)` at the first position of the key.
pub remove_first : Bytes → List Bytes → List Bytes
remove_first key [] = []
remove_first key (k ∷ order) = if text_eq key k then order else k ∷ remove_first key order

pub touch_order : Bytes → List Bytes → List Bytes
touch_order key order = if member key order then remove_first key order ++ (key ∷ []) else order

pub touch : Bytes → LruCache → LruCache
touch key cache = record { cap = cache.cap; map = cache.map; order = touch_order key cache.order }

unfoldable pub get : Bytes → LruCache → Option (Option FilterAction) × LruCache
get key cache = elim (map_get key cache.map) [
  | none ↦ (none, cache)
  | some value ↦ (some value, touch key cache)
]

-- `pop_front` with the removal of the key that it gives.
pop_oldest : ℕ → Entries → List Bytes → LruCache
pop_oldest cap entries [] = record { cap = cap; map = entries; order = [] }
pop_oldest cap entries (oldest ∷ order) = record {
  cap = cap;
  map = map_remove oldest entries;
  order = order;
}

-- The eviction for a key that is new.
evict : LruCache → LruCache
evict cache =
    if length cache.map == cache.cap then pop_oldest cache.cap cache.map cache.order else cache

-- The branch of `put` for a key that is new.
make_room : Bytes → LruCache → LruCache
make_room key cache = record {
  cap = (evict cache).cap;
  map = (evict cache).map;
  order = (evict cache).order ++ (key ∷ []);
}

pub contains_key : Bytes → Entries → Bool
contains_key key entries = elim (map_get key entries) [ none ↦ false | some v ↦ true ]

insert_at : Bytes → Option FilterAction → LruCache → LruCache
insert_at key value cache =
    touch key
      (record { cap = cache.cap; map = map_insert key value cache.map; order = cache.order })

pub put : Bytes → Option FilterAction → LruCache → LruCache
put key value cache =
    if contains_key key cache.map
    then insert_at key value cache
    else insert_at key value (make_room key cache)
