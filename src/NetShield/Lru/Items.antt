-- ===== src/NetShield/Lru/Items.antt =====
-- A property of every decision in the cache: it lasts if what is put has it.
use holy_blocker.NetShield.Lru.{
  length, List, text_eq, some, ℕ, FilterAction, Option, Bytes, LruCache, Entries, get, put, map_get,
  map_insert, map_remove, insert_at, make_room, evict, pop_oldest, touch, contains_key, new,
}
use holy_blocker.Shared.{
  text_eq_iff, sym, ◌==◌, inr, arith, inl, [], Option-cases, Bool-cases, ◌≡◌, ◌∷◌,
}
use mathlib.Core.Path.{subst}

module _ (P : Bytes → Option FilterAction → Type 0) where
  abbrev pub AllItems : Entries → Type 0
  AllItems [] = Unit
  AllItems ((k, v) ∷ entries) = P k v × AllItems entries

  map_get-AllItems :
      (d : Bytes) (entries : Entries) (v : Option FilterAction)
      → AllItems entries
      → map_get d entries ≡ some v
      → P d v
  unfolding map_get
  map_get-AllItems d [] v h e = cc
  map_get-AllItems d ((k, w) ∷ entries) v h e = elim (Bool-cases (text_eq d k)) [
    | inl here ↦
        let same_value : w ≡ v = ground (arith, here, e) in
        subst (λ t. P t v) (sym ((text_eq_iff d k).0 here)) (subst (P k) same_value h.0)
    | inr other ↦ map_get-AllItems d entries v h.1 (ground (arith, other, e))
  ]

  map_remove-AllItems :
      (d : Bytes) (entries : Entries) → AllItems entries → AllItems (map_remove d entries)
  unfolding map_remove
  map_remove-AllItems d [] h = tt
  map_remove-AllItems d ((k, w) ∷ entries) h = elim (Bool-cases (text_eq d k)) [
    | inl here ↦ rw (here, map_remove) h.1
    | inr other ↦ rw (other, map_remove) (h.0, map_remove-AllItems d entries h.1)
  ]

  map_insert-AllItems :
      (d : Bytes) (v : Option FilterAction) (entries : Entries)
      → P d v
      → AllItems entries
      → AllItems (map_insert d v entries)
  unfolding map_insert
  map_insert-AllItems d v [] p h = (p, tt)
  map_insert-AllItems d v ((k, w) ∷ entries) p h = elim (Bool-cases (text_eq d k)) [
    | inl here ↦ rw (here, map_insert) (subst (λ t. P t v) ((text_eq_iff d k).0 here) p, h.1)
    | inr other ↦ rw (other, map_insert) (h.0, map_insert-AllItems d v entries p h.1)
  ]

  pop_oldest-AllItems :
      (cap : ℕ) (entries : Entries) (order : List Bytes)
      → AllItems entries
      → AllItems (pop_oldest cap entries order).map
  unfolding pop_oldest
  pop_oldest-AllItems cap entries [] h = h
  pop_oldest-AllItems cap entries (oldest ∷ order) h = map_remove-AllItems oldest entries h

  make_room-AllItems :
      (d : Bytes) (cache : LruCache) → AllItems cache.map → AllItems (make_room d cache).map
  unfolding make_room evict
  make_room-AllItems d cache h = elim (Bool-cases (length cache.map == cache.cap)) [
    | inl full ↦ rw (full, evict) (pop_oldest-AllItems cache.cap cache.map cache.order h)
    | inr room ↦ rw (room, evict) h
  ]

  pub put-AllItems :
      (d : Bytes) (v : Option FilterAction) (cache : LruCache)
      → P d v
      → AllItems cache.map
      → AllItems (put d v cache).map
  unfolding put insert_at touch
  put-AllItems d v cache p h = elim (Bool-cases (contains_key d cache.map)) [
    | inl known ↦ rw (known, put) (map_insert-AllItems d v cache.map p h)
    | inr new_key ↦
        rw (new_key, put)
          (map_insert-AllItems d v (make_room d cache).map p (make_room-AllItems d cache h))
  ]

  pub get-AllItems :
      (d : Bytes) (cache : LruCache) → AllItems cache.map → AllItems (get d cache).1.map
  unfolding get touch
  get-AllItems d cache h = elim (Option-cases (map_get d cache.map)) [
    | inl e ↦ rw (e, get) h
    | inr (v, e) ↦ rw (e, get) h
  ]

  pub get-found :
      (d : Bytes) (cache : LruCache) (v : Option FilterAction)
      → AllItems cache.map
      → (get d cache).0 ≡ some v
      → P d v
  unfolding get
  get-found d cache v h e = elim (Option-cases (map_get d cache.map)) [
    | inl miss ↦ ground (arith, miss, e)
    | inr (w, hit) ↦ map_get-AllItems d cache.map v h (ground (arith, hit, e))
  ]

  pub new-AllItems : (cap : ℕ) → AllItems (new cap).map
  unfolding new
  new-AllItems cap = tt
