-- ===== src/DomainBlocklist/Sweep/Stream/Round.antt =====
-- One round of the streaming loop beside one of the loop over the batches.
use holy_blocker.DomainBlocklist.Sweep.Stream.{
  Reading, LoopEnd, read_to_end, halted, sweep_error, stream_loop, after_stream_batch, flush_if_due,
  fill_batch, filled,
}
use holy_blocker.DomainBlocklist.Sweep.Stream.Fill.{has_entry}
use holy_blocker.DomainBlocklist.Sweep.{
  Bool, false, canary_pass_both, true, Bytes, SweepState, some, SweepConfig, CanaryConfig, World,
  suc, MergedEntry, CacheBackend, List, ℕ, due_domains, sweep_loop, after_batch, checkpoint_if_due,
  process_batch, Progress, going, stopped, at_least_one,
}
use holy_blocker.DomainBlocklist.Sweep.Loop.{
  Progress-cases, process_batch-Updated, after_batch-going, Updated,
}
use holy_blocker.Shared.{
  ◌+◌, inr, inl, text_eq_self, member, Option-cases, [], arith, ◌≡◌, ◌∷◌, refl,
}
use holy_blocker.DomainBlocklist.Backend.{IsMap}
use holy_blocker.Shared.Listed.{KeepsItems}

-- The end of the one loop that an end of the other stands for.
abbrev pub ends : {C K : Type 0} → Progress C K → LoopEnd C K
ends (going st) = read_to_end st
ends (stopped e) = halted (sweep_error e)

module _ {C K : Type 0} (backend : CacheBackend C) (ok : IsMap backend) (world : World backend K)
    (canary : CanaryConfig) (config : SweepConfig) (now : ℕ)
    (keeps : (batch : ℕ) → KeepsItems (world.completion batch))
    (still : (c : C) → backend.flush c ≡ some c)
    (saves : (c : C) (k : K) → world.checkpoint c k ≡ some k) where
  pub after_same :
      (pass : ℕ) (st : SweepState C K)
      → after_stream_batch backend world canary config now pass st
        ≡ after_batch backend world canary config now pass st
  unfolding after_stream_batch after_batch flush_if_due checkpoint_if_due
  after_same pass st = elim (Option-cases (canary_pass_both world.first world.second pass canary)) [
    | inl e ↦ ground (arith, e, still st.cache, saves st.cache st.sink)
    | inr (f, e) ↦ ground (arith, e)
  ]

  pub due_domains_same :
      (entries : List MergedEntry) (c c' : C)
      → ((d : Bytes) → has_entry d entries ≡ true → backend.get d c ≡ backend.get d c')
      → due_domains backend c now config.ttl_seconds entries
        ≡ due_domains backend c' now config.ttl_seconds entries
  unfolding due_domains
  due_domains_same [] c c' h = refl
  due_domains_same (e ∷ entries) c c' h =
      let rest = due_domains_same entries c c' (λ d k. h d (ground (arith, k))) in
      let here_too = h e.domain (ground (arith, text_eq_self e.domain)) in rw (rest, here_too) refl

  -- A round that goes on leaves the domains that it has not checked as they were.
  pub round_keeps :
      (batch pass : ℕ) (domains : List Bytes) (st st' : SweepState C K) (d : Bytes)
      → after_batch backend world canary config now pass
          (process_batch backend world canary config now batch domains st)
        ≡ going st'
      → member d domains ≡ false
      → backend.get d st.cache ≡ backend.get d st'.cache
  unfolding Updated
  round_keeps batch pass domains st st' d h other =
      let st₁ = process_batch backend world canary config now batch domains st in
      let (p, kept, n) =
        after_batch-going backend ok world canary config now keeps pass st₁ st' h in
      let up : ok.view st₁.cache d ≡ ok.view st.cache d =
        rw other at
          (process_batch-Updated backend ok world canary config now keeps batch domains st d) in
      ground (arith, up, kept, ok.view-get d st.cache, ok.view-get d st'.cache)

  pub due_domains_nil :
      (c : C) (entries : List MergedEntry)
      → entries ≡ []
      → due_domains backend c now config.ttl_seconds entries ≡ []
  unfolding due_domains
  due_domains_nil c entries e = rw e refl

  -- One round of each loop.
  pub round_at_end :
      (rounds batch : ℕ) (file rest : Reading) (st : SweepState C K)
      → fill_batch backend st.cache now config.ttl_seconds (at_least_one config.canary_every) file
        ≡ filled [] true rest
      → stream_loop backend world canary config now (suc rounds) batch file st ≡ read_to_end st
  unfolding stream_loop
  round_at_end rounds batch file rest st e = rw (e, stream_loop) refl

  pub round_full :
      (rounds batch : ℕ) (file rest : Reading) (st : SweepState C K) (d : Bytes)
      (domains : List Bytes) (eof : Bool) (chunks : List (List Bytes))
      → fill_batch backend st.cache now config.ttl_seconds (at_least_one config.canary_every) file
        ≡ filled (d ∷ domains) eof rest
      → ((st' : SweepState C K)
          → after_batch backend world canary config now
              (batch + 1)
              (process_batch backend world canary config now batch (d ∷ domains) st)
            ≡ going st'
          → (elim eof [
            | true ↦ read_to_end st'
            | false ↦ stream_loop backend world canary config now rounds (batch + 1) rest st'
          ])
            ≡ ends (sweep_loop backend world canary config now (batch + 1) chunks st'))
      → stream_loop backend world canary config now (suc rounds) batch file st
        ≡ ends (sweep_loop backend world canary config now batch ((d ∷ domains) ∷ chunks) st)
  unfolding stream_loop sweep_loop
  round_full rounds batch file rest st d domains eof chunks e next_round =
      let st₁ = process_batch backend world canary config now batch (d ∷ domains) st in
      let same_after = after_same (batch + 1) st₁ in
      elim (Progress-cases (after_batch backend world canary config now (batch + 1) st₁)) [
        | inr (error, halt) ↦ rw (e, stream_loop, same_after, halt, sweep_loop) refl
        | inl (st', on) ↦ rw (e, stream_loop, same_after, on, sweep_loop) (next_round st' on)
      ]
