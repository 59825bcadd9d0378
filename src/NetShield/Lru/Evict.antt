-- ===== src/NetShield/Lru/Evict.antt =====
-- What a put does to the other keys.
use holy_blocker.Shared.{
  not, ◌&&◌, ◌==◌, refl, Bool-cases, if◌then◌else◌, text_eq_iff, [], ◌≡◌, Bytes, arith, inl, inr,
}
use holy_blocker.NetShield.Lru.{
  contains_key, make_room, true, touch, length, insert_at, LruCache, ℕ, none, put, evict,
  pop_oldest, member, text_eq, Entries, ◌∷◌, FilterAction, false, Option, Bool, map_remove,
  map_insert, List, map_get,
}
use holy_blocker.NetShield.Lru.Keys.{member_eq, Distinct, keys}
use holy_blocker.NetShield.Lru.Recent.{IsLru}

-- Whether the key is the one that was used longest ago.
unfoldable pub is_oldest : Bytes → List Bytes → Bool
is_oldest key [] = false
is_oldest key (oldest ∷ order) = text_eq key oldest

map_get-map_insert_other :
    (k key : Bytes) (value : Option FilterAction) (entries : Entries)
    → text_eq k key ≡ false
    → map_get k (map_insert key value entries) ≡ map_get k entries
unfolding map_get map_insert
map_get-map_insert_other k key value [] h = rw h
map_get-map_insert_other k key value ((x, v) ∷ entries) h = ground (
  arith,
  h,
  map_get-map_insert_other k key value entries h,
  text_eq_iff key x,
  text_eq_iff k x,
  text_eq_iff k key,
)

map_get-missing :
    (k : Bytes) (entries : Entries) → member k (keys entries) ≡ false → map_get k entries ≡ none
unfolding map_get keys
map_get-missing k [] h = refl
map_get-missing k ((x, v) ∷ entries) h = ground (arith, map_get-missing k entries)

map_get-map_remove :
    (k x : Bytes) (entries : Entries)
    → Distinct (keys entries)
    → map_get k (map_remove x entries) ≡ (if text_eq k x then none else map_get k entries)
unfolding map_get map_remove keys Distinct
map_get-map_remove k x [] d = ground arith
map_get-map_remove k x ((y, v) ∷ entries) d = elim (Bool-cases (text_eq x y)) [
  | inl e ↦
      let gone : text_eq k x ≡ true → map_get k entries ≡ none = λ h. map_get-missing k entries (
        ground
          (arith, d.0, text_eq_iff x y, text_eq_iff k x, e, h, member_eq k y (keys entries))) in
      ground (arith, e, gone, text_eq_iff x y, text_eq_iff k y, text_eq_iff k x)
  | inr e ↦ ground (
    arith,
    e,
    map_get-map_remove k x entries d.1,
    text_eq_iff x y,
    text_eq_iff k y,
    text_eq_iff k x,
  )
]

map_get-pop_oldest :
    (k : Bytes) (cap : ℕ) (entries : Entries) (order : List Bytes)
    → Distinct (keys entries)
    → map_get k (pop_oldest cap entries order).map
      ≡ (if is_oldest k order then none else map_get k entries)
unfolding pop_oldest is_oldest
map_get-pop_oldest k cap entries [] d = refl
map_get-pop_oldest k cap entries (oldest ∷ order) d = map_get-map_remove k oldest entries d

map_get-evict :
    (k : Bytes) (cache : LruCache)
    → Distinct (keys cache.map)
    → map_get k (evict cache).map ≡ (
        if (length cache.map == cache.cap) && is_oldest k cache.order
        then none
        else map_get k cache.map)
unfolding evict
map_get-evict k cache d = ground (arith, map_get-pop_oldest k cache.cap cache.map cache.order d)

-- Putting a key leaves every other key with its decision, but for one case: a new key in a full
-- cache takes the place of the key that was used longest ago.
pub put-others :
    (k key : Bytes) (value : Option FilterAction) (cache : LruCache)
    → IsLru cache
    → text_eq k key ≡ false
    → map_get k (put key value cache).map ≡ (
        if not (contains_key key cache.map)
          && ((length cache.map == cache.cap) && is_oldest k cache.order)
        then none
        else map_get k cache.map)
unfolding put insert_at touch make_room
put-others k key value cache ok other = ground (
  arith,
  map_get-map_insert_other k key value cache.map other,
  map_get-map_insert_other k key value (evict cache).map other,
  map_get-evict k cache ok.map_distinct,
)
