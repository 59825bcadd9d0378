-- ===== src/DomainBlocklist/CacheStore/Runs.antt =====
-- A database that is a list of rows, and an encoding that takes entries of live domains only.
use holy_blocker.DomainBlocklist.CacheStore.{
  decoded, insert_item, sort_items, insert_all, write_items, get_row, set, get, flush_ok, [],
  CacheEntry, some, none, ℕ, Bytes, Option, List, Redb, Bincode, CacheStore, Row, no_row, row,
  cache_store, flush, flush_failed,
}
use holy_blocker.DomainBlocklist.CacheStore.Dto.{
  dto_of, verdict_dto_of, entry_of, verdict_of, CacheEntryDto, alive_dto,
}
use holy_blocker.DomainBlocklist.CacheStore.Refines.{IsRedb, IsBincode, IsSettled, flush-IsSettled}
use holy_blocker.DomainBlocklist.Backend.Script.{Operation, get_op, set_op, flush_op, run_script}
use holy_blocker.DomainBlocklist.Liveness.Lookup.{alive, dead}
use holy_blocker.DomainBlocklist.CacheStore.Scripts.{cache_store-hash_map}
use holy_blocker.Shared.{
  inr, text_eq, codes, arith, if◌then◌else◌, none, ◌≡◌, inl, Option-cases, ◌∷◌, refl,
}
use holy_blocker.DomainBlocklist.Backend.{hash_get, hash_insert, hash_map}

abbrev rows_of : List (Bytes × Bytes) → Bytes → Option Bytes
rows_of [] k = none
rows_of ((l, b) ∷ db) k = if text_eq k l then some b else rows_of db k

abbrev found_row : Option Bytes → Row
found_row none = no_row
found_row (some b) = row b

abbrev listed : Redb (List (Bytes × Bytes)) (List (Bytes × Bytes))
listed = record {
  lookup_row = λ k db. found_row (rows_of db k);
  begin_write = λ db. some db;
  open_table = λ t. some t;
  insert_row = λ k b t. some ((k, b) ∷ t);
  commit = λ t. some t;
}

abbrev write_alive : CacheEntryDto → Option Bytes
write_alive e = elim e.verdict [
  | alive_dto ↦ elim e.first_dead_at [ none ↦ some (e.last_checked ∷ []) | some t ↦ none ]
  | _ ↦ none
]

abbrev read_alive : Bytes → Option CacheEntryDto
read_alive (n ∷ []) = some (record { last_checked = n; verdict = alive_dto; first_dead_at = none })
read_alive _ = none

abbrev alive_only : Bincode
alive_only = record { serialize = write_alive; deserialize = read_alive }

listed-IsRedb : IsRedb listed
listed-IsRedb = record {
  rows = rows_of;
  txn_rows = rows_of;
  lookup-rows = λ k db. elim (Option-cases (rows_of db k)) [
    | inl e ↦ ground (arith, e)
    | inr (b, e) ↦ ground (arith, e)
  ];
  begin-rows = λ db e k. ground (arith, e);
  open-rows = λ t e k. ground (arith, e);
  insert-rows = λ k b t e l. ground (arith, e);
  commit-rows = λ t e k. ground (arith, e);
}

alive_only-IsBincode : IsBincode alive_only
alive_only-IsBincode = record { deserialize-serialize = λ dto {b} e. read-write dto e }
  where
    read-write :
        (dto : CacheEntryDto) {b : Bytes} → write_alive dto ≡ some b → read_alive b ≡ some dto
    read-write dto e = ground (arith, e)

abbrev seen : ℕ → CacheEntry
seen n = record { last_checked = n; verdict = alive; first_dead_at = none }

abbrev start_store : CacheStore (List (Bytes × Bytes))
start_store = record { db = []; pending = []; error_count = 0 }

abbrev script : List Operation
script =
    set_op (codes "a.org") (seen 5)
    ∷ flush_op
    ∷ set_op (codes "a.org") (seen 6)
    ∷ get_op (codes "a.org")
    ∷ get_op (codes "b.org")
    ∷ []

runs :
    run_script (cache_store listed alive_only) script start_store ≡ some (some (seen 6) ∷ none ∷ [])
unfolding run_script flush_ok flush set hash_insert write_items insert_all sort_items insert_item
    get get_row decoded dto_of verdict_dto_of entry_of verdict_of hash_get text_eq
runs = refl

starts : (k : Bytes) → (get listed alive_only k start_store).0 ≡ hash_get k []
unfolding get get_row hash_get
starts k = refl

cache_store-hash_map_example : run_script hash_map script [] ≡ some (some (seen 6) ∷ none ∷ [])
cache_store-hash_map_example =
    cache_store-hash_map listed alive_only listed-IsRedb alive_only-IsBincode script start_store []
      (some (seen 6) ∷ none ∷ []) starts runs

-- One entry waits, and the encoding refuses it.
abbrev buried : CacheEntry
buried = record { last_checked = 6; verdict = dead; first_dead_at = some 6 }

abbrev held : List (Bytes × CacheEntry) → CacheStore (List (Bytes × Bytes))
held pending = record { db = (codes "a.org", 5 ∷ []) ∷ []; pending = pending; error_count = 0 }

fails : flush listed alive_only (held ((codes "a.org", buried) ∷ [])) ≡ flush_failed (held [])
unfolding flush write_items insert_all sort_items insert_item dto_of verdict_dto_of
fails = refl

flush-IsSettled_example :
    IsSettled listed alive_only listed-IsRedb alive_only-IsBincode
      (held ((codes "a.org", buried) ∷ []))
      (flush listed alive_only (held ((codes "a.org", buried) ∷ [])))
flush-IsSettled_example =
    flush-IsSettled listed alive_only listed-IsRedb alive_only-IsBincode
      (held ((codes "a.org", buried) ∷ []))
