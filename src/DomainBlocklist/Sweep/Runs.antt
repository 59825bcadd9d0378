-- ===== src/DomainBlocklist/Sweep/Runs.antt =====
-- A sweep over two domains in batches of one. Both resolvers have an address for the live control
-- and deny all else; one domain was found dead an hour before, the other is new.
use holy_blocker.DomainBlocklist.Liveness.Cache.{due_for_check}
use holy_blocker.DomainBlocklist.Backend.{hash_get, hash_map-IsMap, hash_map}
use holy_blocker.DomainBlocklist.Liveness.Lookup.{nx_domain, resolved, dead, a, aaaa}
use holy_blocker.DomainBlocklist.Sweep.{
  start, prunes, pruned_of, finish, dead_since, first_dead, entry_after, record_results,
  batch_verdicts, checkpoint_if_due, process_batch, after_batch, sweep_loop, chunks_of,
  is_transient_no_answer, retry, check_control_with_retry, control_failures, canary_pass_async,
  canary_pass_both, none, true, batched, [], length, swept, MergedEntry, some, due_domains,
  CacheEntry, SweepOutcome, ℕ, List, Bytes, CanaryConfig, if◌then◌else◌, World, Resolver,
  SweepConfig, run_sweep_with_resolvers,
}
use holy_blocker.Shared.{inl, member, refl, ◌∷◌, ◌+◌, codes, text_eq, ◌≡◌}
use holy_blocker.Shared.Listed.{KeepsItems}
use holy_blocker.DomainBlocklist.Liveness.Lookup.Dead.{is_plain_nx}
use holy_blocker.DomainBlocklist.Sweep.Loop.{Updated}
use holy_blocker.DomainBlocklist.Liveness.Cache.Prune.{IsPruned}
use holy_blocker.DomainBlocklist.Sweep.Outcome.{
  run_sweep-pruned_due, run_sweep-Updated, run_sweep-IsPruned,
}
use holy_blocker.DomainNormalize.{apex, strip_dot}
use holy_blocker.NetShield.Utf8.{to_ascii_lowercase, lower}
use holy_blocker.DomainBlocklist.Types.{ut1, adult}
use holy_blocker.DomainBlocklist.Liveness.Lookup.{
  check, check_rest, combine, combine_nx, is_filtering_ede, check_corroborated, corroborate,
}
use holy_blocker.DomainBlocklist.Liveness.Cache.{
  should_prune_with_hysteresis, should_prune, is_special_use_domain, has_dot, last_label,
  quarantined,
}
use holy_blocker.DomainBlocklist.Backend.{hash_insert}

abbrev answers : Resolver
answers moment domain record_type =
    if text_eq domain (codes "up.org") then resolved [] else nx_domain true none

abbrev world : World hash_map ℕ
world = record {
  first = answers;
  second = answers;
  completion = λ batch results. results;
  checkpoint = λ cache sink. some (sink + 1);
}

abbrev canary : CanaryConfig
canary = record { alive_controls = codes "up.org" ∷ []; dead_controls = codes "n.test" ∷ [] }

abbrev config : SweepConfig
config = record {
  canary_every = 1;
  ttl_seconds = 60;
  quarantine_seconds = 3600;
  checkpoint_every = 2;
}

abbrev entry : Bytes → MergedEntry
entry domain = record { domain = domain; scope = apex; sources = ut1 ∷ []; categories = adult ∷ [] }

abbrev entries : List MergedEntry
entries = entry (codes "old.org") ∷ entry (codes "new.org") ∷ []

abbrev died : ℕ → ℕ → CacheEntry
died since checked = record { last_checked = checked; verdict = dead; first_dead_at = some since }

abbrev before : List (Bytes × CacheEntry)
before = (codes "old.org", died 100 100) ∷ []

abbrev outcome : SweepOutcome (List (Bytes × CacheEntry))
outcome = record {
  cache = (codes "old.org", died 100 3700) ∷ (codes "new.org", died 3700 3700) ∷ [];
  pruned_domains = codes "old.org" ∷ [];
  checked_count = 2;
}

keeps : (batch : ℕ) → KeepsItems (world.completion batch)
keeps batch results = (refl, λ r. (λ h. h, λ h. h))

done : run_sweep_with_resolvers hash_map world canary config 3700 entries before 0 ≡ swept outcome
unfolding run_sweep_with_resolvers canary_pass_both canary_pass_async control_failures
    check_control_with_retry retry is_transient_no_answer due_domains chunks_of sweep_loop
    after_batch process_batch checkpoint_if_due batch_verdicts record_results entry_after first_dead
    dead_since finish pruned_of prunes start hash_get hash_insert check check_rest combine
    combine_nx is_filtering_ede check_corroborated corroborate due_for_check
    should_prune_with_hysteresis should_prune is_special_use_domain has_dot last_label quarantined
    text_eq to_ascii_lowercase strip_dot lower
done = refl

run_sweep-Updated_example :
    (2 ≡ length (due_domains hash_map before 3700 60 entries))
    × ((d : Bytes)
        → Updated hash_map hash_map-IsMap world canary config 3700 keeps
            (member d (due_domains hash_map before 3700 60 entries))
            d
            before
            outcome.cache)
run_sweep-Updated_example =
    run_sweep-Updated hash_map hash_map-IsMap world canary config 3700 keeps entries before 0
      outcome done

run_sweep-IsPruned_example :
    (e : CacheEntry) × (hash_map-IsMap.view outcome.cache (codes "old.org") ≡ some e)
    × IsPruned 3700 3600 (codes "old.org") e
run_sweep-IsPruned_example =
    run_sweep-IsPruned hash_map hash_map-IsMap world canary config 3700 keeps entries before 0
      outcome done (codes "old.org") (inl refl)

run_sweep-pruned_due_example :
    (batch : ℕ) × (place : ℕ) × (is_plain_nx (answers (batched batch place) (codes "old.org") a)
      ≡ true)
    × (is_plain_nx (answers (batched batch place) (codes "old.org") aaaa) ≡ true)
    × (is_plain_nx (answers (batched batch place) (codes "old.org") a) ≡ true)
    × (is_plain_nx (answers (batched batch place) (codes "old.org") aaaa) ≡ true)
unfolding due_domains hash_get due_for_check text_eq
run_sweep-pruned_due_example =
    run_sweep-pruned_due hash_map hash_map-IsMap world canary config 3700 keeps entries before 0
      outcome done (codes "old.org") (inl refl) refl
