-- ===== src/NetShield/Lru/Recent.antt =====
-- The cache stays within its capacity, and a key that is put is there.
use holy_blocker.Shared.{
  ◌∙◌, suc, sym, ◌+◌, ◌++◌, ==→eq, ◌==◌, refl, text_eq_self, text_eq_iff, ◌∷◌, length-append,
  Bool-cases, ◌≡◌, Option-cases, ◌≤◌, ◌<◌, arith, inl, inr,
}
use holy_blocker.NetShield.Lru.{
  text_eq, map_remove, some, contains_key, FilterAction, true, make_room, Option, false, Entries,
  map_insert, put, insert_at, evict, ℕ, [], remove_first, map_get, member, List, pop_oldest, length,
  Bytes, touch, touch_order, get, LruCache,
}
use holy_blocker.NetShield.Lru.Keys.{
  contains_key-keys, keys-map_insert, length-keys, keys-map_remove, member_eq,
  Distinct-remove_first, member-last, member-remove_first, length-remove_first, Distinct-last, keys,
  Distinct,
}

-- The queue and the map hold the same keys, each once, and no more than the capacity.
pub record IsLru (cache : LruCache) : Type 0 where
  pub some_room : 0 < cache.cap
  pub within : length cache.map ≤ cache.cap
  pub same_size : length cache.order ≡ length cache.map
  pub order_distinct : Distinct cache.order
  pub map_distinct : Distinct (keys cache.map)
  pub same_keys : (k : Bytes) → member k cache.order ≡ member k (keys cache.map)

touch_order-Distinct :
    (key : Bytes) (order : List Bytes) → Distinct order → Distinct (touch_order key order)
unfolding touch_order
touch_order-Distinct key order d = elim (Bool-cases (member key order)) [
  | inr e ↦ rw e d
  | inl e ↦ rw e (
      Distinct-last key (remove_first key order) (Distinct-remove_first key order d)
        (rw (member-remove_first key key order d, text_eq_self key, e) refl))
]

length-touch_order :
    (key : Bytes) (order : List Bytes) → length (touch_order key order) ≡ length order
unfolding touch_order
length-touch_order key order =
    ground (arith, length-remove_first key order, length-append (remove_first key order) (key ∷ []))

member-touch_order :
    (k key : Bytes) (order : List Bytes)
    → Distinct order
    → member k (touch_order key order) ≡ member k order
unfolding touch_order
member-touch_order k key order d = ground (
  arith,
  member-remove_first k key order d,
  member-last k key (remove_first key order),
  text_eq_iff k key,
  member_eq k key order,
)

touch-IsLru : (key : Bytes) (cache : LruCache) → IsLru cache → IsLru (touch key cache)
unfolding touch
touch-IsLru key cache ok = record {
  some_room = ok.some_room;
  within = ok.within;
  same_size = omega (arith, length-touch_order key cache.order, ok.same_size);
  order_distinct = touch_order-Distinct key cache.order ok.order_distinct;
  map_distinct = ok.map_distinct;
  same_keys = λ k. rw (member-touch_order k key cache.order ok.order_distinct) (ok.same_keys k);
}

-- Looking a key up keeps the cache well-formed: queue and map hold the same keys, each once, and no
-- more than the capacity.
pub get-IsLru : (key : Bytes) (cache : LruCache) → IsLru cache → IsLru (get key cache).1
unfolding get
get-IsLru key cache ok = elim (Option-cases (map_get key cache.map)) [
  | inl e ↦ rw (e, get) ok
  | inr (value, e) ↦ rw (e, get) (touch-IsLru key cache ok)
]

-- A cache with room for one more.
HasRoom : LruCache → Type 0
HasRoom cache = IsLru cache × (length cache.map < cache.cap)

pop_oldest-HasRoom :
    (cap : ℕ) (entries : Entries) (order : List Bytes)
    → IsLru (record { cap = cap; map = entries; order = order })
    → length entries ≡ cap
    → HasRoom (pop_oldest cap entries order)
unfolding pop_oldest HasRoom Distinct
pop_oldest-HasRoom cap entries [] ok full = absurd (omega (arith, ok.some_room, ok.same_size, full))
pop_oldest-HasRoom cap entries (oldest ∷ order) ok full =
    let there : member oldest (keys entries) ≡ true =
      ground (arith, ok.same_keys oldest, text_eq_self oldest) in
    let fewer = length-remove_first oldest (keys entries) there in
    let sizes = length-keys (map_remove oldest entries) in
    let same = keys-map_remove oldest entries in
    let shorter : suc (length (map_remove oldest entries)) ≡ length entries =
      ground (arith, fewer, sizes, same, length-keys entries) in
    (
      record {
        some_room = ok.some_room;
        within = omega (arith, shorter, full);
        same_size = omega (arith, shorter, ok.same_size);
        order_distinct = ok.order_distinct.1;
        map_distinct = rw same (Distinct-remove_first oldest (keys entries) ok.map_distinct);
        same_keys = λ k. ground (
          arith,
          same,
          member-remove_first k oldest (keys entries) ok.map_distinct,
          ok.same_keys k,
          text_eq_iff k oldest,
          ok.order_distinct.0,
        );
      },
      omega (arith, shorter, full),
    )

evict-HasRoom : (cache : LruCache) → IsLru cache → HasRoom (evict cache)
unfolding evict HasRoom
evict-HasRoom cache ok = elim (Bool-cases (length cache.map == cache.cap)) [
  | inl full ↦ rw full (
      pop_oldest-HasRoom cache.cap cache.map cache.order ok
        (==→eq (length cache.map) cache.cap full))
  | inr other ↦ rw other (ok, ground (arith, ok.within, other))
]

pop_oldest-missing :
    (key : Bytes) (cap : ℕ) (entries : Entries) (order : List Bytes)
    → Distinct (keys entries)
    → member key (keys entries) ≡ false
    → member key (keys (pop_oldest cap entries order).map) ≡ false
unfolding pop_oldest
pop_oldest-missing key cap entries [] d e = e
pop_oldest-missing key cap entries (oldest ∷ order) d e =
    rw (keys-map_remove oldest entries, member-remove_first key oldest (keys entries) d, e) refl

evict-missing :
    (key : Bytes) (cache : LruCache)
    → Distinct (keys cache.map)
    → member key (keys cache.map) ≡ false
    → member key (keys (evict cache).map) ≡ false
unfolding evict
evict-missing key cache d e = elim (Bool-cases (length cache.map == cache.cap)) [
  | inl full ↦ rw full (pop_oldest-missing key cache.cap cache.map cache.order d e)
  | inr other ↦ rw other e
]

insert_known :
    (key : Bytes) (value : Option FilterAction) (cache : LruCache)
    → IsLru cache
    → member key (keys cache.map) ≡ true
    → IsLru (insert_at key value cache)
unfolding insert_at
insert_known key value cache ok there =
    let same : keys (map_insert key value cache.map) ≡ keys cache.map =
      ground (arith, there, keys-map_insert key value cache.map) in
    let size : length (map_insert key value cache.map) ≡ length cache.map =
      ground (arith, same, length-keys cache.map, length-keys (map_insert key value cache.map)) in
    touch-IsLru key _ (record {
      some_room = ok.some_room;
      within = omega (arith, size, ok.within);
      same_size = omega (arith, size, ok.same_size);
      order_distinct = ok.order_distinct;
      map_distinct = rw same ok.map_distinct;
      same_keys = λ k. rw same (ok.same_keys k);
    })

insert_new :
    (key : Bytes) (value : Option FilterAction) (cache : LruCache)
    → HasRoom cache
    → member key (keys cache.map) ≡ false
    → IsLru (
        insert_at key value
          (record { cap = cache.cap; map = cache.map; order = cache.order ++ (key ∷ []) }))
unfolding insert_at HasRoom
insert_new key value cache (ok, room) new_key =
    let same : keys (map_insert key value cache.map) ≡ keys cache.map ++ (key ∷ []) =
      ground (arith, new_key, keys-map_insert key value cache.map) in
    let size : length (map_insert key value cache.map) ≡ length cache.map + 1 = ground (
      arith,
      same,
      length-keys cache.map,
      length-keys (map_insert key value cache.map),
      length-append (keys cache.map) (key ∷ []),
    ) in
    touch-IsLru key _ (record {
      some_room = ok.some_room;
      within = omega (arith, size, room);
      same_size = omega (arith, size, ok.same_size, length-append cache.order (key ∷ []));
      order_distinct = Distinct-last key cache.order ok.order_distinct (ok.same_keys key ∙ new_key);
      map_distinct = rw same (Distinct-last key (keys cache.map) ok.map_distinct new_key);
      same_keys = λ k. ground (
        arith,
        same,
        member-last k key cache.order,
        member-last k key (keys cache.map),
        ok.same_keys k,
      );
    })

-- Putting a decision keeps the cache well-formed and within its capacity, whether the key is known
-- or new and whether the cache is full or not.
pub put-IsLru :
    (key : Bytes) (value : Option FilterAction) (cache : LruCache)
    → IsLru cache
    → IsLru (put key value cache)
unfolding put make_room HasRoom
put-IsLru key value cache ok = elim (Bool-cases (contains_key key cache.map)) [
  | inl known ↦
      rw known (insert_known key value cache ok (sym (contains_key-keys key cache.map) ∙ known))
  | inr new_key ↦
      let missing_key =
        evict-missing key cache ok.map_distinct (sym (contains_key-keys key cache.map) ∙ new_key) in
      rw new_key (insert_new key value (evict cache) (evict-HasRoom cache ok) missing_key)
]

map_get-map_insert :
    (key : Bytes) (value : Option FilterAction) (entries : Entries)
    → map_get key (map_insert key value entries) ≡ some value
unfolding map_get map_insert
map_get-map_insert key value [] = rw (text_eq_self key)
map_get-map_insert key value ((k, v) ∷ entries) = elim (Bool-cases (text_eq key k)) [
  | inl e ↦ rw (e, e)
  | inr e ↦ rw (e, e) (map_get-map_insert key value entries)
]

-- A decision that is put is the one that the next lookup of its key gives.
pub get-put :
    (key : Bytes) (value : Option FilterAction) (cache : LruCache)
    → (get key (put key value cache)).0 ≡ some value
unfolding get put insert_at touch make_room
get-put key value cache =
    ground (
      arith,
      map_get-map_insert key value cache.map,
      map_get-map_insert key value (evict cache).map,
    )
