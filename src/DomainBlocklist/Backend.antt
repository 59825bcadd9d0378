-- ===== src/DomainBlocklist/Backend.antt =====
-- packages/domain-blocklist/src/cache_store.rs, the trait `CacheBackend`: what the sweep asks of a
-- liveness cache, and what it promises as a map from domains to entries.
pub mod Script
use holy_blocker.Shared.{
  refl, [], text_eq_iff, text_eq, if◌then◌else◌, ◌∷◌, ◌≡◌, Option, arith, List, Bytes, none, some,
}
use holy_blocker.DomainBlocklist.Liveness.Cache.{CacheEntry}

pub record CacheBackend (C : Type 0) : Type 0 where
  pub get : Bytes → C → Option CacheEntry
  pub set : Bytes → CacheEntry → C → C
  pub flush : C → Option C

-- The promise: a cache stands for a map, `view`, that the operations read, update and keep.
pub record IsMap {C : Type 0} (backend : CacheBackend C) : Type 0 where
  pub view : C → Bytes → Option CacheEntry
  pub view-get : (d : Bytes) (c : C) → backend.get d c ≡ view c d
  pub view-set :
      (d : Bytes) (e : CacheEntry) (c : C) (d' : Bytes)
      → view (backend.set d e c) d' ≡ (if text_eq d' d then some e else view c d')
  pub view-flush : (c : C) {c' : C} → backend.flush c ≡ some c' → (d : Bytes) → view c' d ≡ view c d

-- `impl CacheBackend for HashMap<String, CacheEntry>`, an entry replaced where it stands.
unfoldable pub hash_get : Bytes → List (Bytes × CacheEntry) → Option CacheEntry
hash_get d [] = none
hash_get d ((k, e) ∷ rest) = if text_eq d k then some e else hash_get d rest

unfoldable pub hash_insert :
    Bytes → CacheEntry → List (Bytes × CacheEntry) → List (Bytes × CacheEntry)
hash_insert d e [] = (d, e) ∷ []
hash_insert d e ((k, old) ∷ rest) =
    if text_eq d k then (k, e) ∷ rest else (k, old) ∷ hash_insert d e rest

abbrev pub hash_map : CacheBackend (List (Bytes × CacheEntry))
hash_map = record { get = hash_get; set = hash_insert; flush = λ c. some c }

pub hash_get-hash_insert :
    (d : Bytes) (e : CacheEntry) (c : List (Bytes × CacheEntry)) (d' : Bytes)
    → hash_get d' (hash_insert d e c) ≡ (if text_eq d' d then some e else hash_get d' c)
unfolding hash_get hash_insert
hash_get-hash_insert d e [] d' = refl
hash_get-hash_insert d e ((k, old) ∷ rest) d' =
    ground
      (arith, hash_get-hash_insert d e rest d', text_eq_iff d k, text_eq_iff d' k, text_eq_iff d' d)

-- A HashMap keeps the promise.
pub hash_map-IsMap : IsMap hash_map
hash_map-IsMap = record {
  view = λ c d. hash_get d c;
  view-get = λ d c. refl;
  view-set = hash_get-hash_insert;
  view-flush = λ c e d. ground (arith, e);
}
