-- ===== src/DomainBlocklist/Sweep/Stream/Runs.antt =====
-- A file of two entries, swept with a resolver that has an address for the live control only.
use holy_blocker.DomainBlocklist.Sweep.{
  none, some, false, [], ℕ, Bytes, CanaryConfig, World, Resolver, SweepConfig,
  run_sweep_with_resolvers,
}
use holy_blocker.DomainBlocklist.Sweep.Stream.{run_sweep_streaming}
use holy_blocker.DomainBlocklist.Sweep.Stream.Fill.{reading_of}
use holy_blocker.DomainBlocklist.Sweep.Stream.Resident.{as_streamed, run_sweep_streaming-resident}
use holy_blocker.DomainBlocklist.Liveness.Lookup.{nx_domain, resolved}
use holy_blocker.DomainNormalize.{exact_host}
use holy_blocker.DomainBlocklist.Types.{hagezi, gambling, MergedEntry}
use holy_blocker.Shared.{◌≡◌, codes, if◌then◌else◌, ◌∷◌, refl, text_eq}
use holy_blocker.DomainBlocklist.Backend.{hash_map-IsMap, hash_map}

abbrev answers : Resolver
answers moment domain record_type =
    if text_eq domain (codes "up.net") then resolved [] else nx_domain false none

abbrev world : World hash_map ℕ
world = record {
  first = answers;
  second = answers;
  completion = λ batch results. results;
  checkpoint = λ cache sink. some sink;
}

abbrev canary : CanaryConfig
canary = record { alive_controls = codes "up.net" ∷ []; dead_controls = codes "n.test" ∷ [] }

abbrev config : SweepConfig
config = record {
  canary_every = 1;
  ttl_seconds = 60;
  quarantine_seconds = 3600;
  checkpoint_every = 1;
}

abbrev entry : Bytes → MergedEntry
entry domain = record {
  domain = domain;
  scope = exact_host;
  sources = hagezi ∷ [];
  categories = gambling ∷ [];
}

run_sweep_streaming-resident_example :
    run_sweep_streaming hash_map world canary config 3700
      (reading_of (entry (codes "a.net") ∷ entry (codes "b.net") ∷ []))
      (reading_of (entry (codes "a.net") ∷ entry (codes "b.net") ∷ []))
      []
      0
    ≡ as_streamed (
        run_sweep_with_resolvers hash_map world canary config 3700
          (entry (codes "a.net") ∷ entry (codes "b.net") ∷ [])
          []
          0)
unfolding text_eq
run_sweep_streaming-resident_example =
    run_sweep_streaming-resident hash_map hash_map-IsMap world canary config 3700
      (λ batch results. (refl, λ r. (λ h. h, λ h. h))) (λ c. refl) (λ c k. refl)
      (entry (codes "a.net") ∷ entry (codes "b.net") ∷ []) [] 0 (refl, (refl, tt))
