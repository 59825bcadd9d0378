-- ===== src/DomainBlocklist/CacheStore/Refines.antt =====
-- The store is a map: what waits in memory lies over the rows of the database, and writing it out
-- changes nothing that a reader sees.
use holy_blocker.DomainBlocklist.CacheStore.{
  opened_on, flushed, ℕ, FlushResult, cache_store, flush_failed, set, flush, flush_ok, read_error,
  dto_of, decoded, get_row, write_items, insert_all, get, CacheStore, entry_of, sort_items, ◌∷◌,
  none, some, CacheEntry, List, Option, CacheEntryDto, Bytes, Redb, Bincode, no_row, row,
}
use holy_blocker.Shared.{
  refl, sym, ◌≢◌, ◌∙◌, List-cases, and_then-some, Option-cases, inr, inl, text_eq, [],
  if◌then◌else◌, none, arith, ◌≡◌,
}
use holy_blocker.DomainBlocklist.Backend.{hash_get-hash_insert, IsMap, hash_get}
use holy_blocker.DomainBlocklist.CacheStore.Dto.{entry_of-dto_of}
use holy_blocker.DomainBlocklist.CacheStore.Sorted.{or_else, last_of, last_of-sort}
use mathlib.Core.Path.{subst}

-- What is relied on of redb: a lookup succeeds and finds the row of a key, a write transaction shows
-- the rows of the database with what it has inserted, and its commit makes them those of the database.
pub record IsRedb {D T : Type 0} (redb : Redb D T) : Type 0 where
  pub rows : D → Bytes → Option Bytes
  pub txn_rows : T → Bytes → Option Bytes
  pub lookup-rows :
      (k : Bytes) (db : D)
      → redb.lookup_row k db ≡ elim (rows db k) [ none ↦ no_row | some b ↦ row b ]
  pub begin-rows :
      (db : D) {t : T} → redb.begin_write db ≡ some t → (k : Bytes) → txn_rows t k ≡ rows db k
  pub open-rows :
      (t : T) {u : T} → redb.open_table t ≡ some u → (k : Bytes) → txn_rows u k ≡ txn_rows t k
  pub insert-rows :
      (k b : Bytes) (t : T) {u : T}
      → redb.insert_row k b t ≡ some u
      → (l : Bytes) → txn_rows u l ≡ (if text_eq l k then some b else txn_rows t l)
  pub commit-rows :
      (t : T) {db : D} → redb.commit t ≡ some db → (k : Bytes) → rows db k ≡ txn_rows t k

-- What is relied on of bincode: what it writes it reads back.
pub record IsBincode (bincode : Bincode) : Type 0 where
  pub deserialize-serialize :
      (dto : CacheEntryDto) {b : Bytes}
      → bincode.serialize dto ≡ some b
      → bincode.deserialize b ≡ some dto

module _ {D T : Type 0} (redb : Redb D T) (bincode : Bincode) (ok : IsRedb redb)
    (coded : IsBincode bincode) where
  unfoldable pub row_value : Option Bytes → Option CacheEntry
  row_value none = none
  row_value (some b) = elim (bincode.deserialize b) [ none ↦ none | some dto ↦ some (entry_of dto) ]

  -- What a reader sees for a domain.
  unfoldable pub store_view : CacheStore D → Bytes → Option CacheEntry
  store_view store d = or_else (hash_get d store.pending) (row_value (ok.rows store.db d))

  get-store_view :
      (d : Bytes) (store : CacheStore D) → (get redb bincode d store).0 ≡ store_view store d
  unfolding get get_row decoded read_error store_view row_value
  get-store_view d store = elim (Option-cases (ok.rows store.db d)) [
    | inl e ↦ ground (arith, e, ok.lookup-rows d store.db)
    | inr (b, e) ↦ ground (arith, e, ok.lookup-rows d store.db)
  ]

  insert_all-value :
      (items : List (Bytes × CacheEntry)) (t : T) {u : T} (d : Bytes)
      → insert_all redb bincode items t ≡ some u
      → row_value (ok.txn_rows u d) ≡ or_else (last_of d items) (row_value (ok.txn_rows t d))
  unfolding insert_all last_of row_value
  insert_all-value [] t d h = ground (arith, h)
  insert_all-value ((k, e) ∷ items) t {u} d h = elim (Option-cases (bincode.serialize (dto_of e))) [
    | inl s ↦ ground (arith, h, s)
    | inr (b, s) ↦ elim (Option-cases (redb.insert_row k b t)) [
      | inl w ↦ ground (arith, h, s, w)
      | inr (v, w) ↦
          let rest = insert_all-value items v {u = u} d (ground (arith, h, s, w)) in
          ground (
            arith,
            rest,
            ok.insert-rows k b t w d,
            coded.deserialize-serialize (dto_of e) s,
            entry_of-dto_of e,
          )
    ]
  ]

  write_items-value :
      (items : List (Bytes × CacheEntry)) (db : D) {db' : D} (d : Bytes)
      → write_items redb bincode items db ≡ some db'
      → row_value (ok.rows db' d) ≡ or_else (last_of d items) (row_value (ok.rows db d))
  unfolding write_items
  write_items-value items db d h =
      let (t, begun, h) = and_then-some (redb.begin_write db) _ h in
      let (u, opened, h) = and_then-some (redb.open_table t) _ h in
      let (v, written, committed) = and_then-some (insert_all redb bincode items u) _ h in
      ground (
        arith,
        insert_all-value items u d written,
        ok.begin-rows db begun d,
        ok.open-rows t opened d,
        ok.commit-rows v committed d,
      )

  flush-store_view :
      (store s : CacheStore D)
      → flush_ok redb bincode store ≡ some s
      → (d : Bytes) → store_view s d ≡ store_view store d
  unfolding flush_ok flush store_view hash_get
  flush-store_view store s h d = elim (List-cases store.pending) [
    | inl e ↦ ground (arith, e, h)
    | inr (item, items, e) ↦
        elim (Option-cases (write_items redb bincode (sort_items (item ∷ items)) store.db)) [
          | inl w ↦ ground (arith, e, h, w)
          | inr (db, w) ↦
              let written = write_items-value (sort_items (item ∷ items)) store.db d w in
              ground (arith, e, h, w, written, last_of-sort d (item ∷ items))
        ]
  ]

  -- What a flush leaves to the readers of the store and to a store that is opened anew on its database.
  pub IsSettled : CacheStore D → FlushResult D → Type 0
  IsSettled store (flushed s) =
      (d : Bytes)
      → ((get redb bincode d s).0 ≡ (get redb bincode d store).0)
        × ((get redb bincode d (opened_on s.db)).0 ≡ (get redb bincode d store).0)
  IsSettled store (flush_failed s) =
      (store.pending ≢ [])
      × (write_items redb bincode (sort_items store.pending) store.db ≡ none)
      × (flush redb bincode s ≡ flushed s)
      × ((d : Bytes)
          → ((get redb bincode d s).0 ≡ (get redb bincode d (opened_on store.db)).0)
            × ((get redb bincode d (opened_on s.db)).0
                ≡ (get redb bincode d (opened_on store.db)).0))

  -- Every reader of one store gets what another gets from another, where their views agree.
  get-same :
      (s t : CacheStore D) (d : Bytes)
      → store_view s d ≡ store_view t d
      → (get redb bincode d s).0 ≡ (get redb bincode d t).0
  get-same s t d e = get-store_view d s ∙ e ∙ sym (get-store_view d t)

  emptied : D → ℕ → CacheStore D
  emptied db errors = record { db = db; pending = []; error_count = errors }

  emptied-store_view :
      (db : D) (errors : ℕ) (d : Bytes)
      → store_view (emptied db errors) d ≡ row_value (ok.rows db d)
  unfolding emptied store_view hash_get
  emptied-store_view db errors d = refl

  written-store_view :
      (store : CacheStore D) (db : D)
      → write_items redb bincode (sort_items store.pending) store.db ≡ some db
      → (d : Bytes) → row_value (ok.rows db d) ≡ store_view store d
  unfolding store_view
  written-store_view store db w d = ground (
    arith,
    write_items-value (sort_items store.pending) store.db d w,
    last_of-sort d store.pending,
  )

  -- The three ways that a flush ends.
  unwaited-IsSettled : (store : CacheStore D) → store.pending ≡ [] → IsSettled store (flushed store)
  unfolding IsSettled store_view hash_get
  unwaited-IsSettled store e d = (refl, get-same (opened_on store.db) store d (ground (arith, e)))

  written-IsSettled :
      (store : CacheStore D) (db : D)
      → write_items redb bincode (sort_items store.pending) store.db ≡ some db
      → IsSettled store (flushed (emptied db store.error_count))
  unfolding IsSettled emptied
  written-IsSettled store db w d =
      let same = written-store_view store db w d in
      (
        get-same _ store d (emptied-store_view db store.error_count d ∙ same),
        get-same _ store d (emptied-store_view db 0 d ∙ same),
      )

  failed-IsSettled :
      (store : CacheStore D)
      → store.pending ≢ []
      → write_items redb bincode (sort_items store.pending) store.db ≡ none
      → IsSettled store (flush_failed (emptied store.db store.error_count))
  unfolding IsSettled emptied flush
  failed-IsSettled store waits w = (
    waits,
    w,
    refl,
    λ d. (
      get-same _ (opened_on store.db) d
          (emptied-store_view store.db store.error_count d ∙ sym (emptied-store_view store.db 0 d)),
      refl,
    ),
  )

  -- On a database and an encoding that do what is relied on of redb and bincode, a flush that succeeds
  -- changes nothing that a reader gets, and a store that is opened anew on the database gives the same.
  -- A flush fails only where entries wait and their transaction fails; then the entries are lost: this
  -- store, like one opened anew, gives what the database held before, and the next flush reports success.
  pub flush-IsSettled : (store : CacheStore D) → IsSettled store (flush redb bincode store)
  unfolding flush emptied
  flush-IsSettled store = elim (List-cases store.pending) [
    | inl e ↦ subst (IsSettled store) (rw e refl) (unwaited-IsSettled store e)
    | inr (item, items, e) ↦
        let waits : store.pending ≢ [] = λ h. ground (arith, e, h) in
        elim (Option-cases (write_items redb bincode (sort_items (item ∷ items)) store.db)) [
          | inl w ↦
              subst (IsSettled store) (ground (arith, e, w)) (failed-IsSettled store waits (rw e w))
          | inr (db, w) ↦
              subst (IsSettled store) (ground (arith, e, w)) (written-IsSettled store db (rw e w))
        ]
  ]

  -- The store keeps the promise of the trait.
  pub cache_store-IsMap : IsMap (cache_store redb bincode)
  unfolding set store_view
  cache_store-IsMap = record {
    view = store_view;
    view-get = get-store_view;
    view-set = λ d e c d'. ground (arith, hash_get-hash_insert d e c.pending d');
    view-flush = λ c {c'} e d. flush-store_view c c' e d;
  }
