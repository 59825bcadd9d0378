-- ===== src/DomainBlocklist/Sweep/Outcome.antt =====
-- What a sweep that succeeds has done.
use holy_blocker.DomainBlocklist.Sweep.Loop.{
  IsFresh, Updated, sweep_loop-Updated, sweep_loop-checked, sweep_loop-AllDated,
  sweep_loop-canaries, Progress-cases,
}
use holy_blocker.DomainBlocklist.Sweep.Chunks.{concat, concat-chunks_of}
use holy_blocker.Shared.Listed.{Listed, KeepsItems}
use holy_blocker.DomainBlocklist.Liveness.Lookup.{a, aaaa, check_corroborated}
use holy_blocker.DomainBlocklist.Liveness.Lookup.Dead.{check_corroborated-dead}
use holy_blocker.Shared.{
  [], ◌∙◌, Bool-cases, sym, ap, member, ◌≤◌, Option-cases, ◌≡◌, zero, ◌<◌, ℕ, arith, inl, inr, none,
}
use holy_blocker.DomainBlocklist.Backend.{IsMap, CacheBackend}
use holy_blocker.DomainBlocklist.Sweep.{
  batched, true, ◌∷◌, some, prunes, dead, pruned_of, CacheEntry, going, start, sweep_loop,
  canary_pass_both, SweepState, swept, SweepOutcome, length, finish, chunks_of, due_domains,
  run_sweep_with_resolvers, Bytes, MergedEntry, List, SweepConfig, CanaryConfig, suc, World,
  at_least_one,
}
use native.Mathlib.Nat.{le_refl}
use holy_blocker.DomainBlocklist.Sweep.Batch.{AllDated}
use mathlib.Core.Path.{subst}
use holy_blocker.DomainBlocklist.Liveness.Cache.Prune.{should_prune-IsPruned, IsPruned}
use holy_blocker.DomainBlocklist.Liveness.Lookup.Dead.{is_plain_nx}

at_least_one-pos : (n : ℕ) → 0 < at_least_one n
at_least_one-pos zero = omega arith
at_least_one-pos (suc n) = omega arith

module _ {C K : Type 0} (backend : CacheBackend C) (ok : IsMap backend) (world : World backend K)
    (canary : CanaryConfig) (config : SweepConfig) (now : ℕ)
    (keeps : (batch : ℕ) → KeepsItems (world.completion batch)) (entries : List MergedEntry)
    (cache : C) (sink : K) where
  pruned_of-IsPruned :
      (c : C) (es : List MergedEntry) (d : Bytes)
      → Listed d (pruned_of backend c now config.quarantine_seconds es)
      → (e : CacheEntry) × (ok.view c d ≡ some e) × IsPruned now config.quarantine_seconds d e
  unfolding pruned_of prunes
  pruned_of-IsPruned c [] d h = absurd h
  pruned_of-IsPruned c (m ∷ es) d h =
      elim (Bool-cases (prunes backend c now config.quarantine_seconds m)) [
        | inr keep ↦ pruned_of-IsPruned c es d (rw (keep, pruned_of) at h)
        | inl cut ↦ elim (rw (cut, pruned_of) at h) [
          | inr later ↦ pruned_of-IsPruned c es d later
          | inl same ↦ elim (Option-cases (backend.get m.domain c)) [
            | inl e ↦ ground (arith, e, cut)
            | inr (cached, e) ↦
                let test = rw (e, prunes) at cut in
                let seen = sym (ok.view-get m.domain c) ∙ e in
                let good =
                  should_prune-IsPruned cached m.domain now config.quarantine_seconds test in
                (
                  cached,
                  subst (λ t. ok.view c t ≡ some cached) (sym same) seen,
                  subst (λ t. IsPruned now config.quarantine_seconds t cached) (sym same) good,
                )
          ]
        ]
      ]

  abbrev due : List Bytes
  due = due_domains backend cache now config.ttl_seconds entries

  abbrev chunks : List (List Bytes)
  chunks = chunks_of (length due) (at_least_one config.canary_every) due

  concat-chunks : concat chunks ≡ due
  concat-chunks =
      concat-chunks_of (length due) (at_least_one config.canary_every) due
        (at_least_one-pos config.canary_every) (le_refl _)

  -- A sweep that succeeds has passed its first canary and gone through its loop.
  swept-loop :
      (o : SweepOutcome C)
      → run_sweep_with_resolvers backend world canary config now entries cache sink ≡ swept o
      → (st : SweepState C K) × (canary_pass_both world.first world.second 0 canary ≡ none)
        × (sweep_loop backend world canary config now 0 chunks
              (start backend world canary config now cache sink)
            ≡ going st)
        × (finish backend world canary config now entries (going st) ≡ swept o)
  unfolding run_sweep_with_resolvers finish
  swept-loop o h = elim (Option-cases (canary_pass_both world.first world.second 0 canary)) [
    | inr (f, e) ↦ ground (arith, e, h)
    | inl passed ↦
        let st₀ = start backend world canary config now cache sink in
        let whole = rw (passed, run_sweep_with_resolvers) at h in
        elim (Progress-cases (sweep_loop backend world canary config now 0 chunks st₀)) [
          | inl (st, e) ↦ (st, passed, e, rw e at whole)
          | inr (e, stop) ↦ ground (arith, stop, whole)
        ]
  ]

  module _ (o : SweepOutcome C)
      (done : run_sweep_with_resolvers backend world canary config now entries cache sink
        ≡ swept o) where
    -- A sweep that succeeds has checked every domain that was due, and left each with an entry of
    -- this moment and the verdict of a corroborated check, and every other domain with the entry
    -- that it had; it counts one check for each domain that was due.
    pub run_sweep-Updated :
        (o.checked_count ≡ length due)
        × ((d : Bytes)
            → Updated backend ok world canary config now keeps (member d due) d cache o.cache)
    unfolding finish start
    run_sweep-Updated =
        let (st, passed, loop, end) = swept-loop o done in
        let st₀ = start backend world canary config now cache sink in
        let counted =
          sweep_loop-checked backend ok world canary config now keeps 0 chunks st₀ st loop in
        (
          ground (arith, end, counted, ap length concat-chunks),
          λ d.
              let up =
                sweep_loop-Updated backend ok world canary config now keeps 0 chunks st₀ st d
                  loop in
              let same : st.cache ≡ o.cache = ground (arith, end) in rw (concat-chunks, same) at up,
        )

    -- A sweep that succeeds has found no failed control of either resolver, in its first pass of the
    -- canary and in the pass after each batch.
    pub run_sweep-canaries :
        (pass : ℕ)
        → pass ≤ length chunks
        → canary_pass_both world.first world.second pass canary ≡ none
    run_sweep-canaries zero h = (swept-loop o done).1
    run_sweep-canaries (suc pass) h =
        let (st, passed, loop, end) = swept-loop o done in
        sweep_loop-canaries backend ok world canary config now keeps 0 chunks
          (start backend world canary config now cache sink) st loop (suc pass) (omega arith)
          (omega (arith, h))

    -- A sweep that succeeds leaves every entry with a date of death exactly where its verdict is
    -- dead, if the cache that it starts from is so.
    pub run_sweep-AllDated : AllDated backend ok now cache → AllDated backend ok now o.cache
    unfolding finish start
    run_sweep-AllDated dated =
        let (st, passed, loop, end) = swept-loop o done in
        let same : st.cache ≡ o.cache = ground (arith, end) in
        subst (AllDated backend ok now) same (
          sweep_loop-AllDated backend ok world canary config now keeps 0 chunks
            (start backend world canary config now cache sink) st loop dated)

    -- A pruned domain of a sweep that succeeds is no special-use name, and its cached verdict is
    -- dead since a first time that lies back by the quarantine at least.
    pub run_sweep-IsPruned :
        (d : Bytes)
        → Listed d o.pruned_domains
        → (e : CacheEntry) × (ok.view o.cache d ≡ some e)
          × IsPruned now config.quarantine_seconds d e
    unfolding finish
    run_sweep-IsPruned d listed =
        let (st, passed, loop, end) = swept-loop o done in
        let same : st.cache ≡ o.cache = ground (arith, end) in
        let cut : pruned_of backend st.cache now config.quarantine_seconds entries
            ≡ o.pruned_domains =
          ground (arith, end) in
        subst
          (λ c.
            (e : CacheEntry) × (ok.view c d ≡ some e) × IsPruned now config.quarantine_seconds d e)
          same (pruned_of-IsPruned st.cache entries d (subst (Listed d) (sym cut) listed))

    -- A domain that was due and is pruned has been found dead in this sweep: in some batch both
    -- resolvers answered, for A and for AAAA, that it does not exist, without a filter's error code.
    pub run_sweep-pruned_due :
        (d : Bytes)
        → Listed d o.pruned_domains
        → member d due ≡ true
        → (batch : ℕ) × (place : ℕ) × (is_plain_nx (world.first (batched batch place) d a) ≡ true)
          × (is_plain_nx (world.first (batched batch place) d aaaa) ≡ true)
          × (is_plain_nx (world.second (batched batch place) d a) ≡ true)
          × (is_plain_nx (world.second (batched batch place) d aaaa) ≡ true)
    unfolding Updated IsFresh
    run_sweep-pruned_due d listed due_now =
        let (e, seen, pruned) = run_sweep-IsPruned d listed in
        let (f, seen', (fresh, batch, place, from)) =
          subst (λ m. Updated backend ok world canary config now keeps m d cache o.cache) due_now
            (run_sweep-Updated.1 d) in
        let gone : check_corroborated (world.first (batched batch place) d)
              (world.second (batched batch place) d)
            ≡ dead =
          cc (seen, seen', pruned.is_dead, from) in
        let (p, q, r, s) =
          (check_corroborated-dead (world.first (batched batch place) d)
              (world.second (batched batch place) d)).0
            gone in
        (batch, place, p, q, r, s)
