-- ===== src/DomainBlocklist/CacheStore/Sorted.antt =====
-- The sorted items of a flush: the entry that is written last for a key is the one that was buffered.
use holy_blocker.DomainBlocklist.CacheStore.{
  sort_items, insert_item, before, ◌∷◌, none, some, CacheEntry, List, Option, Bytes,
}
use holy_blocker.DomainBlocklist.Merge.{after, text_order}
use holy_blocker.Shared.{
  refl, text_eq_iff, inr, inl, text_eq, [], if◌then◌else◌, none, arith, ◌≢◌, ◌≡◌,
}
use holy_blocker.DomainBlocklist.Merge.TextOrder.{
  text_order_flip, text_order-before, text_order_trans, text_order_same, text_order_cases,
}
use holy_blocker.DomainBlocklist.Backend.{hash_get}

abbrev pub or_else : Option CacheEntry → Option CacheEntry → Option CacheEntry
or_else none o = o
or_else (some e) o = some e

-- The entry of a key that is written last.
unfoldable pub last_of : Bytes → List (Bytes × CacheEntry) → Option CacheEntry
last_of d [] = none
last_of d (item ∷ items) =
    or_else (last_of d items) (if text_eq d item.0 then some item.1 else none)

abbrev Floor : Bytes → List (Bytes × CacheEntry) → Type 0
Floor d [] = Unit
Floor d (item ∷ items) = (text_order d item.0 ≢ after) × Floor d items

abbrev InOrder : List (Bytes × CacheEntry) → Type 0
InOrder [] = Unit
InOrder (item ∷ items) = Floor item.0 items × InOrder items

not_after_trans :
    (x y z : Bytes) → text_order x y ≢ after → text_order y z ≢ after → text_order x z ≢ after
not_after_trans x y z h k = ground (
  arith,
  h,
  k,
  text_order_cases x y,
  text_order_cases y z,
  text_order_same x y,
  text_order_same y z,
  text_order_trans x y z,
)

-- A key before the first of some items in order is none of theirs.
last_of-under :
    (d e : Bytes) (items : List (Bytes × CacheEntry))
    → text_order d e ≡ before
    → Floor e items
    → last_of d items ≡ none
unfolding last_of
last_of-under d e [] h k = refl
last_of-under d e (item ∷ items) h k =
    let below : text_order d item.0 ≡ before = ground (
      arith,
      h,
      k.0,
      text_order_cases e item.0,
      text_order_same e item.0,
      text_order_trans d e item.0,
    ) in
    ground (arith, last_of-under d e items h k.1, text_order-before d item.0 below)

Floor-insert :
    (d : Bytes) (item : Bytes × CacheEntry) (items : List (Bytes × CacheEntry))
    → text_order d item.0 ≢ after
    → Floor d items
    → Floor d (insert_item item items)
unfolding insert_item
Floor-insert d item [] h k = (h, tt)
Floor-insert d item (next ∷ items) h k = elim (text_order_cases item.0 next.0) [
  | inl o ↦ rw (o, insert_item) (h, (k.0, k.1))
  | inr (inl o) ↦ rw (o, insert_item) (k.0, Floor-insert d item items h k.1)
  | inr (inr o) ↦ rw (o, insert_item) (k.0, Floor-insert d item items h k.1)
]

Floor-trans :
    (d e : Bytes) (items : List (Bytes × CacheEntry))
    → text_order d e ≢ after
    → Floor e items
    → Floor d items
Floor-trans d e [] h k = tt
Floor-trans d e (item ∷ items) h k = (not_after_trans d e item.0 h k.0, Floor-trans d e items h k.1)

insert-InOrder :
    (item : Bytes × CacheEntry) (items : List (Bytes × CacheEntry))
    → InOrder items
    → InOrder (insert_item item items)
unfolding insert_item
insert-InOrder item [] h = (tt, tt)
insert-InOrder item (next ∷ items) h = elim (text_order_cases item.0 next.0) [
  | inl o ↦
      let under : text_order item.0 next.0 ≢ after = ground (arith, o) in
      rw (o, insert_item) ((under, Floor-trans item.0 next.0 items under h.0), (h.0, h.1))
  | inr o ↦
      let over : text_order next.0 item.0 ≢ after =
        ground (arith, o, text_order_flip next.0 item.0) in
      let whole : InOrder (next ∷ insert_item item items) =
        (Floor-insert next.0 item items over h.0, insert-InOrder item items h.1) in
      elim o [ inl p ↦ rw (p, insert_item) whole | inr p ↦ rw (p, insert_item) whole ]
]

last_of-insert :
    (d : Bytes) (item : Bytes × CacheEntry) (items : List (Bytes × CacheEntry))
    → InOrder items
    → last_of d (insert_item item items)
      ≡ (if text_eq d item.0 then some item.1 else last_of d items)
unfolding insert_item last_of
last_of-insert d item [] h = ground arith
last_of-insert d item (next ∷ items) h = elim (text_order_cases item.0 next.0) [
  | inl o ↦
      let none_behind = last_of-under item.0 next.0 items o h.0 in
      ground (arith, o, none_behind, text_eq_iff d item.0, text_order-before item.0 next.0 o)
  | inr o ↦ ground (arith, o, last_of-insert d item items h.1)
]

sort-InOrder : (items : List (Bytes × CacheEntry)) → InOrder (sort_items items)
unfolding sort_items
sort-InOrder [] = tt
sort-InOrder (item ∷ items) = insert-InOrder item (sort_items items) (sort-InOrder items)

pub last_of-sort :
    (d : Bytes) (items : List (Bytes × CacheEntry))
    → last_of d (sort_items items) ≡ hash_get d items
unfolding sort_items last_of hash_get
last_of-sort d [] = refl
last_of-sort d ((k, e) ∷ items) =
    ground
      (arith, last_of-insert d (k, e) (sort_items items) (sort-InOrder items), last_of-sort d items)
