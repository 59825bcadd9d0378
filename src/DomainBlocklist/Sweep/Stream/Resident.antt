-- ===== src/DomainBlocklist/Sweep/Stream/Resident.antt =====
-- The sweep over a file and the sweep over its entries in memory are one.
use holy_blocker.DomainBlocklist.Sweep.Chunks.{
  at_least_one-suc, chunks_of_nil, chunks_of_cons, positive_suc,
}
use holy_blocker.DomainBlocklist.Sweep.Stream.{
  Filled, read_to_end, sweep_error, StreamResult, streamed, stream_failed, scanned, stream_loop,
  run_sweep_streaming, prune_scan, prune_streamed, finish_stream, entries_in,
}
use holy_blocker.DomainBlocklist.Sweep.Stream.Fill.{
  IsFilled, reading_of, DistinctDomains, fill_batch-IsFilled,
}
use holy_blocker.DomainBlocklist.Sweep.{
  drop, take, false, canary_pass_both, true, Bytes, SweepState, some, SweepConfig, CanaryConfig,
  World, length, suc, MergedEntry, CacheBackend, List, ℕ, due_domains, chunks_of, sweep_loop,
  after_batch, process_batch, Progress, going, stopped, pruned_of, prunes, SweepResult, swept,
  sweep_failed, run_sweep_with_resolvers, finish, start, at_least_one,
}
use holy_blocker.Shared.{
  length-drop, ◌+◌, ◌∙◌, ap, sym, Bool-cases, List-cases, ◌≤◌, ◌<◌, inr, inl, member, Option-cases,
  [], zero, arith, ◌≡◌, ◌∷◌, refl,
}
use holy_blocker.DomainBlocklist.Backend.{IsMap}
use holy_blocker.Shared.Listed.{KeepsItems}
use mathlib.Core.Path.{subst}
use holy_blocker.DomainBlocklist.Sweep.Stream.Round.{
  ends, due_domains_same, round_keeps, due_domains_nil, round_at_end, round_full,
}

entries_in-reading_of :
    (entries : List MergedEntry) → entries_in (reading_of entries) ≡ length entries
unfolding entries_in
entries_in-reading_of [] = refl
entries_in-reading_of (e ∷ entries) = omega (arith, entries_in-reading_of entries)

abbrev pub as_streamed : {C : Type 0} → SweepResult C → StreamResult C
as_streamed (swept o) = streamed o
as_streamed (sweep_failed e) = stream_failed (sweep_error e)

module _ {C K : Type 0} (backend : CacheBackend C) (ok : IsMap backend) (world : World backend K)
    (canary : CanaryConfig) (config : SweepConfig) (now : ℕ)
    (keeps : (batch : ℕ) → KeepsItems (world.completion batch))
    (still : (c : C) → backend.flush c ≡ some c)
    (saves : (c : C) (k : K) → world.checkpoint c k ≡ some k) where
  -- The loop over the file of some entries takes the rounds of the loop over the batches that are due.
  abbrev SameLoop : ℕ → ℕ → ℕ → List MergedEntry → SweepState C K → Type 0
  SameLoop rounds n batch entries st =
      DistinctDomains entries
      → length entries < rounds
      → length (due_domains backend st.cache now config.ttl_seconds entries) ≤ n
      → stream_loop backend world canary config now rounds batch (reading_of entries) st
        ≡ ends (
            sweep_loop backend world canary config now batch
              (chunks_of n (at_least_one config.canary_every)
                (due_domains backend st.cache now config.ttl_seconds entries))
              st)

  -- Equal lists of what is due make equal loops.
  loops_of :
      (n batch : ℕ) (st : SweepState C K) {due due' : List Bytes}
      → due ≡ due'
      → ends (
          sweep_loop backend world canary config now batch
            (chunks_of n (at_least_one config.canary_every) due)
            st)
        ≡ ends (
            sweep_loop backend world canary config now batch
              (chunks_of n (at_least_one config.canary_every) due')
              st)
  loops_of n batch st e =
      ap
        (λ due. ends (
          sweep_loop backend world canary config now batch
            (chunks_of n (at_least_one config.canary_every) due) st))
        e

  no_batches :
      (n batch : ℕ) (st : SweepState C K)
      → ends (
          sweep_loop backend world canary config now batch
            (chunks_of n (at_least_one config.canary_every) [])
            st)
        ≡ read_to_end st
  unfolding sweep_loop
  no_batches n batch st =
      ap (λ chunks. ends (sweep_loop backend world canary config now batch chunks st))
        (chunks_of_nil n (at_least_one config.canary_every))

  next_round_same :
      (rounds k batch : ℕ) (entries : List MergedEntry) (st st' : SweepState C K) (d : Bytes)
      (ds : List Bytes) (result : Filled)
      (r : IsFilled backend st.cache now config.ttl_seconds
        (at_least_one config.canary_every)
        entries
        result)
      → take
          (at_least_one config.canary_every)
          (due_domains backend st.cache now config.ttl_seconds entries)
        ≡ d ∷ ds
      → after_batch backend world canary config now
          (batch + 1)
          (process_batch backend world canary config now batch (d ∷ ds) st)
        ≡ going st'
      → length entries < suc rounds
      → length (
          drop
            (at_least_one config.canary_every)
            (due_domains backend st.cache now config.ttl_seconds entries))
        ≤ k
      → SameLoop rounds k (batch + 1) r.rest st'
      → (elim r.eof [
        | true ↦ read_to_end st'
        | false ↦
            stream_loop backend world canary config now rounds (batch + 1) (reading_of r.rest) st'
      ])
        ≡ ends (
            sweep_loop backend world canary config now
              (batch + 1)
              (chunks_of k (at_least_one config.canary_every) (
                drop
                  (at_least_one config.canary_every)
                  (due_domains backend st.cache now config.ttl_seconds entries)))
              st')
  next_round_same rounds k batch entries st st' d ds result r batch_is on few small rest_same =
      let (m, pos) = at_least_one-suc config.canary_every in
      elim (Bool-cases r.eof) [
        | inl t ↦
            let none_left =
              sym r.rest_due
              ∙ due_domains_nil backend ok world canary config now keeps still saves st.cache r.rest
                  (r.at_end t) in
            rw t (sym (loops_of k (batch + 1) st' none_left ∙ no_batches k (batch + 1) st'))
        | inr more ↦
            let same_due =
              sym (
                due_domains_same backend ok world canary config now keeps still saves r.rest
                  st.cache st'.cache
                  (λ f g.
                    round_keeps backend ok world canary config now keeps still saves batch
                      (batch + 1) (d ∷ ds) st st' f on
                      (subst (λ t. member f t ≡ false) batch_is (r.apart f g))))
              ∙ r.rest_due in
            let fewer : length r.rest < rounds =
              omega (arith, few, r.shorter (omega (arith, pos)) more) in
            let left : length (due_domains backend st'.cache now config.ttl_seconds r.rest) ≤ k =
              omega (arith, ap length same_due, small) in
            rw more (rest_same r.rest_distinct fewer left ∙ loops_of k (batch + 1) st' same_due)
      ]

  stream_loop_same :
      (rounds n batch : ℕ) (entries : List MergedEntry) (st : SweepState C K)
      → SameLoop rounds n batch entries st
  stream_loop_same zero n batch entries st h few m = absurd (omega (arith, few))
  stream_loop_same (suc rounds) n batch entries st h few small =
      let size = at_least_one config.canary_every in
      let due = due_domains backend st.cache now config.ttl_seconds entries in
      let r = fill_batch-IsFilled backend st.cache now config.ttl_seconds size entries h in
      let (m, pos) = at_least_one-suc config.canary_every in
      elim (List-cases due) [
        | inl nothing ↦
            let batch_nil : take size due ≡ [] = rw (nothing, pos) refl in
            elim (Bool-cases r.eof) [
              | inr more ↦ absurd (ground (arith, r.full more, batch_nil, pos))
              | inl t ↦
                  round_at_end backend ok world canary config now keeps still saves rounds batch
                    (reading_of entries) (reading_of r.rest) st
                    (ground (arith, r.result_is, batch_nil, t))
                  ∙ sym (loops_of n batch st nothing ∙ no_batches n batch st)
            ]
        | inr (d, ds, some_due) ↦
            let batch_is : take size due ≡ d ∷ take m ds = rw (some_due, pos) refl in
            let (k, n_is) = positive_suc n (omega (arith, small, ap length some_due)) in
            let chunks_are : chunks_of n size due
                ≡ (d ∷ take m ds) ∷ chunks_of k size (drop size due) =
              chunks_of_cons n k m size d ds due n_is some_due pos in
            let left : length (drop size due) ≤ k =
              omega (arith, length-drop size due, small, n_is, pos) in
            round_full backend ok world canary config now keeps still saves rounds batch
              (reading_of entries) (reading_of r.rest) st d (take m ds) r.eof
              (chunks_of k size (drop size due)) (ground (arith, r.result_is, batch_is))
              (λ st' on.
                next_round_same rounds k batch entries st st' d (take m ds) _ r batch_is on few left
                  (stream_loop_same rounds k (batch + 1) r.rest st'))
            ∙ sym (
                ap (λ chunks. ends (sweep_loop backend world canary config now batch chunks st))
                  chunks_are)
      ]

  prune_scan_same :
      (cache : C) (quarantine_seconds : ℕ) (entries : List MergedEntry)
      → prune_scan backend cache now quarantine_seconds (reading_of entries)
        ≡ scanned (pruned_of backend cache now quarantine_seconds entries)
  unfolding prune_scan pruned_of
  prune_scan_same cache quarantine_seconds [] = refl
  prune_scan_same cache quarantine_seconds (e ∷ entries) =
      elim (Bool-cases (prunes backend cache now quarantine_seconds e)) [
        | inl cut ↦ ground (arith, cut, prune_scan_same cache quarantine_seconds entries)
        | inr keep ↦ ground (arith, keep, prune_scan_same cache quarantine_seconds entries)
      ]

  finish_stream_same :
      (entries : List MergedEntry) (p : Progress C K)
      → finish_stream backend world canary config now (reading_of entries) (ends p)
        ≡ as_streamed (finish backend world canary config now entries p)
  unfolding finish_stream finish prune_streamed
  finish_stream_same entries (stopped e) = refl
  finish_stream_same entries (going st) =
      ground (arith, still st.cache, prune_scan_same st.cache config.quarantine_seconds entries)

  -- Over a file that holds some entries, no two of them for one domain, the streaming sweep returns
  -- what the sweep over the entries in memory returns, its errors included, if a flush leaves the
  -- cache as it is and every checkpoint succeeds; in particular it never runs out of rounds.
  pub run_sweep_streaming-resident :
      (entries : List MergedEntry) (cache : C) (sink : K)
      → DistinctDomains entries
      → run_sweep_streaming backend world canary config now
          (reading_of entries)
          (reading_of entries)
          cache
          sink
        ≡ as_streamed (run_sweep_with_resolvers backend world canary config now entries cache sink)
  unfolding run_sweep_streaming run_sweep_with_resolvers start
  run_sweep_streaming-resident entries cache sink h =
      let st₀ = start backend world canary config now cache sink in
      let due = due_domains backend cache now config.ttl_seconds entries in
      let rounds : entries_in (reading_of entries) + 1 ≡ suc (length entries) =
        omega (arith, entries_in-reading_of entries) in
      let loops =
        stream_loop_same (suc (length entries)) (length due) 0 entries st₀ h (omega arith)
          (omega arith) in
      elim (Option-cases (canary_pass_both world.first world.second 0 canary)) [
        | inr (f, e) ↦ ground (arith, e)
        | inl e ↦
            rw (e, run_sweep_streaming, run_sweep_with_resolvers, rounds, loops)
              (finish_stream_same entries (
                sweep_loop backend world canary config now 0
                  (chunks_of (length due) (at_least_one config.canary_every) due) st₀))
      ]
