-- ===== src/DomainBlocklist/CacheStore/Scripts.antt =====
-- A client of the store observes what a client of an in-memory map observes.
use holy_blocker.DomainBlocklist.Backend.Script.{Operation, run_script, run_script-agree}
use holy_blocker.DomainBlocklist.CacheStore.Refines.{IsRedb, IsBincode, cache_store-IsMap}
use holy_blocker.Shared.{◌∙◌, sym, refl, [], arith, ◌≡◌, ◌∷◌}
use holy_blocker.DomainBlocklist.Backend.Script.{get_op, set_op, flush_op}
use holy_blocker.DomainBlocklist.CacheStore.{
  get, some, cache_store, hash_get, Option, CacheEntry, Bytes, CacheStore, List, Bincode, Redb,
}
use holy_blocker.DomainBlocklist.Backend.{hash_insert, hash_map-IsMap, hash_map}

run_script-hash_map :
    (script : List Operation) (m : List (Bytes × CacheEntry))
    → (answers : List (Option CacheEntry)) × (run_script hash_map script m ≡ some answers)
unfolding run_script
run_script-hash_map [] m = ([], refl)
run_script-hash_map (get_op d ∷ script) m =
    let (answers, e) = run_script-hash_map script m in (hash_get d m ∷ answers, ground (arith, e))
run_script-hash_map (set_op d e ∷ script) m = run_script-hash_map script (hash_insert d e m)
run_script-hash_map (flush_op ∷ script) m = run_script-hash_map script m

module _ {D T : Type 0} (redb : Redb D T) (bincode : Bincode) (ok : IsRedb redb)
    (coded : IsBincode bincode) where
  -- A script of reads, writes and flushes that the store on a database completes returns the answers
  -- that the in-memory map returns, if both read alike at the start, the lookups of the
  -- database succeed and its transactions and its encoding do what is relied on.
  pub cache_store-hash_map :
      (script : List Operation) (store : CacheStore D) (m : List (Bytes × CacheEntry))
      (answers : List (Option CacheEntry))
      → ((k : Bytes) → (get redb bincode k store).0 ≡ hash_get k m)
      → run_script (cache_store redb bincode) script store ≡ some answers
      → run_script hash_map script m ≡ some answers
  cache_store-hash_map script store m answers h r =
      let (answers', e) = run_script-hash_map script m in
      let kept = cache_store-IsMap redb bincode ok coded in
      let alike : (k : Bytes) → kept.view store k ≡ hash_map-IsMap.view m k =
        λ k. sym (kept.view-get k store) ∙ (h k ∙ hash_map-IsMap.view-get k m) in
      let agree =
        run_script-agree (cache_store redb bincode) hash_map kept hash_map-IsMap script store m
          answers answers' alike r e in
      cc (e, agree)
