-- ===== src/DomainBlocklist/CacheStore.antt =====
-- packages/domain-blocklist/src/cache_store.rs: the liveness cache on a redb database. The database
-- and the bincode encoding are parameters; a failed transaction leaves the database as it was.
pub mod Dto
pub mod Sorted
pub mod Refines
pub mod Scripts
mod Runs
use holy_blocker.DomainBlocklist.Backend.{CacheBackend, hash_get, hash_insert}
use holy_blocker.DomainBlocklist.Liveness.Cache.{CacheEntry}
use holy_blocker.DomainBlocklist.CacheStore.Dto.{CacheEntryDto, dto_of, entry_of}
use holy_blocker.DomainBlocklist.Merge.{text_order, before, same, after}
use holy_blocker.Shared.{and_then, ◌^◌, ◌%◌, ◌+◌, some, none, ◌∷◌, ℕ, [], List, Option, Bytes}

-- What looking up a row comes to.
pub data Row : Type 0 where
  transaction_failed table_failed lookup_failed no_row : Row
  row : Bytes → Row

-- A database D with its write transactions T.
pub record Redb (D T : Type 0) : Type 0 where
  pub lookup_row : Bytes → D → Row
  pub begin_write : D → Option T
  pub open_table : T → Option T
  pub insert_row : Bytes → Bytes → T → Option T
  pub commit : T → Option D

pub record Bincode : Type 0 where
  pub serialize : CacheEntryDto → Option Bytes
  pub deserialize : Bytes → Option CacheEntryDto

pub record CacheStore (D : Type 0) : Type 0 where
  pub db : D
  pub pending : List (Bytes × CacheEntry)
  pub error_count : ℕ

-- The store that `open_with_cache_size` puts on a database.
abbrev pub opened_on : {D : Type 0} → D → CacheStore D
opened_on db = record { db = db; pending = []; error_count = 0 }

pub data FlushResult (D : Type 0) : Type 0 where
  flushed flush_failed : CacheStore D → FlushResult D

-- `sort_unstable_by(|a, b| a.0.cmp(&b.0))`; no key occurs twice.
insert_item : Bytes × CacheEntry → List (Bytes × CacheEntry) → List (Bytes × CacheEntry)
insert_item item [] = item ∷ []
insert_item item (next ∷ items) =
    let rest = insert_item item items in
    elim (text_order item.0 next.0) [ before ↦ item ∷ next ∷ items | _ ↦ next ∷ rest ]

pub sort_items : List (Bytes × CacheEntry) → List (Bytes × CacheEntry)
sort_items [] = []
sort_items (item ∷ items) = insert_item item (sort_items items)

module _ {D T : Type 0} (redb : Redb D T) (bincode : Bincode) where
  -- `fetch_add` wraps at 64 bits.
  read_error : CacheStore D → Option CacheEntry × CacheStore D
  read_error store = (
    none,
    record {
      db = store.db;
      pending = store.pending;
      error_count = (store.error_count + 1) % 2 ^ 64;
    },
  )

  decoded : Bytes → CacheStore D → Option CacheEntry × CacheStore D
  decoded bytes store = elim (bincode.deserialize bytes) [
    | some dto ↦ (some (entry_of dto), store)
    | none ↦ read_error store
  ]

  get_row : Bytes → CacheStore D → Option CacheEntry × CacheStore D
  get_row domain store = elim (redb.lookup_row domain store.db) [
    | transaction_failed ↦ read_error store
    | table_failed ↦ read_error store
    | lookup_failed ↦ read_error store
    | no_row ↦ (none, store)
    | row bytes ↦ decoded bytes store
  ]

  pub get : Bytes → CacheStore D → Option CacheEntry × CacheStore D
  get domain store = elim (hash_get domain store.pending) [
    | some entry ↦ (some entry, store)
    | none ↦ get_row domain store
  ]

  pub set : Bytes → CacheEntry → CacheStore D → CacheStore D
  set domain entry store = record {
    db = store.db;
    pending = hash_insert domain entry store.pending;
    error_count = store.error_count;
  }

  -- The loop over the items inside the transaction.
  pub insert_all : List (Bytes × CacheEntry) → T → Option T
  insert_all [] txn = some txn
  insert_all ((domain, entry) ∷ items) txn = elim (bincode.serialize (dto_of entry)) [
    | none ↦ none
    | some bytes ↦ elim (redb.insert_row domain bytes txn) [
      | none ↦ none
      | some txn' ↦ insert_all items txn'
    ]
  ]

  -- The write transaction as a whole.
  pub write_items : List (Bytes × CacheEntry) → D → Option D
  write_items items db = and_then (redb.begin_write db) (λ txn.
      and_then (redb.open_table txn)
        (λ opened. and_then (insert_all items opened) (λ written. redb.commit written)))

  -- `pending` is drained before the transaction begins.
  pub flush : CacheStore D → FlushResult D
  flush store = elim store.pending [
    | [] ↦ flushed store
    | item ∷ items ↦ elim (write_items (sort_items (item ∷ items)) store.db) [
      | none ↦
          flush_failed (record { db = store.db; pending = []; error_count = store.error_count })
      | some db ↦ flushed (record { db = db; pending = []; error_count = store.error_count })
    ]
  ]

  -- The store behind the trait: what counts read errors is no part of it.
  pub flush_ok : CacheStore D → Option (CacheStore D)
  flush_ok store = elim (flush store) [ flushed s ↦ some s | flush_failed s ↦ none ]

  abbrev pub cache_store : CacheBackend (CacheStore D)
  cache_store = record { get = λ d store. (get d store).0; set = set; flush = flush_ok }
