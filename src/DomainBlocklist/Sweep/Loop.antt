-- ===== src/DomainBlocklist/Sweep/Loop.antt =====
-- The loop of the sweep over its batches.
use holy_blocker.Shared.Listed.{KeepsItems}
use holy_blocker.Shared.{
  length-append, ==→eq, ◌==◌, ◌+◌, Option-cases, ◌⊎◌, sym, ◌∙◌, Bool-ext, Bool-cases, ◌≤◌, refl,
  ◌<◌, ◌||◌, ◌≡◌, member, ℕ, Bytes, List, arith, inl, inr, none, some, true, false, [], ◌∷◌,
}
use holy_blocker.DomainBlocklist.Liveness.Lookup.{check_corroborated}
use holy_blocker.DomainBlocklist.Backend.{IsMap, CacheBackend}
use holy_blocker.DomainBlocklist.Sweep.{
  stopped, SweepError, canary_pass_both, going, sweep_loop, after_batch, checkpoint_if_due,
  Progress, batched, SweepState, batch_verdicts, process_batch, Bool, CacheEntry, length,
  SweepConfig, CanaryConfig, World,
}
use holy_blocker.DomainBlocklist.Sweep.Batch.{
  record_results-AllDated, length-batch_verdicts, AllDated, record_results-other,
  Listed-batch_verdicts, record_results-Listed, has_domain-Listed, has_domain-batch_verdicts,
  has_domain,
}
use mathlib.Core.Path.{subst}
use holy_blocker.DomainBlocklist.Sweep.Chunks.{concat, member-append}

pub Progress-cases :
    {C K : Type 0} (p : Progress C K)
    → ((st : SweepState C K) × (p ≡ going st)) ⊎ ((e : SweepError) × (p ≡ stopped e))
Progress-cases (going st) = inl (st, refl)
Progress-cases (stopped e) = inr (e, refl)

module _ {C K : Type 0} (backend : CacheBackend C) (ok : IsMap backend) (world : World backend K)
    (canary : CanaryConfig) (config : SweepConfig) (now : ℕ)
    (keeps : (batch : ℕ) → KeepsItems (world.completion batch)) where
  -- An entry of this sweep, whose verdict is that of a corroborated check in some batch.
  unfoldable pub IsFresh : Bytes → CacheEntry → Type 0
  IsFresh d e =
      (e.last_checked ≡ now)
      × (batch : ℕ) × (place : ℕ) × (e.verdict
          ≡ check_corroborated (world.first (batched batch place) d)
              (world.second (batched batch place) d))

  -- A domain that was due has a fresh entry afterwards, any other the entry that it had before.
  unfoldable pub Updated : Bool → Bytes → C → C → Type 0
  Updated true d before after = (e : CacheEntry) × (ok.view after d ≡ some e) × IsFresh d e
  Updated false d before after = ok.view after d ≡ ok.view before d

  has_domain-completed :
      (batch : ℕ) (d : Bytes) (domains : List Bytes)
      → has_domain d
          (world.completion batch (batch_verdicts world.first world.second batch 0 domains))
        ≡ member d domains
  has_domain-completed batch d domains =
      let rs = batch_verdicts world.first world.second batch 0 domains in
      let same = has_domain-batch_verdicts world.first world.second batch d 0 domains in
      let after = has_domain-Listed d (world.completion batch rs) in
      let before = has_domain-Listed d rs in
      let keep = keeps batch rs in
      Bool-ext (λ h. let (v, l) = after.0 h in sym same ∙ before.1 (v, (keep.1 (d, v)).0 l))
        (λ h. let (v, l) = before.0 (same ∙ h) in after.1 (v, (keep.1 (d, v)).1 l))

  pub process_batch-Updated :
      (batch : ℕ) (domains : List Bytes) (st : SweepState C K) (d : Bytes)
      → Updated
          (member d domains)
          d
          st.cache
          (process_batch backend world canary config now batch domains st).cache
  unfolding process_batch Updated IsFresh
  process_batch-Updated batch domains st d =
      let rs = batch_verdicts world.first world.second batch 0 domains in
      let done = world.completion batch rs in
      let same = has_domain-completed batch d domains in
      elim (Bool-cases (member d domains)) [
        | inl due ↦
            let (e, seen, fresh, l) =
              record_results-Listed backend ok now d done st.cache (same ∙ due) in
            let (place, found_it) =
              Listed-batch_verdicts world.first world.second batch d e.verdict 0 domains
                (((keeps batch rs).1 (d, e.verdict)).0 l) in
            rw due (e, seen, (fresh, batch, place, found_it))
        | inr other ↦ rw other (record_results-other backend ok now d done st.cache (same ∙ other))
      ]

  Updated-then :
      (m n : Bool) (d : Bytes) (x y z : C)
      → Updated m d x y
      → Updated n d y z
      → Updated (m || n) d x z
  unfolding Updated
  Updated-then true true d x y z first second = second
  Updated-then true false d x y z (e, seen, fresh) second = (e, second ∙ seen, fresh)
  Updated-then false true d x y z first second = second
  Updated-then false false d x y z first second = second ∙ first

  pub process_batch-AllDated :
      (batch : ℕ) (domains : List Bytes) (st : SweepState C K)
      → AllDated backend ok now st.cache
      → AllDated backend ok now
          (process_batch backend world canary config now batch domains st).cache
  unfolding process_batch
  process_batch-AllDated batch domains st h =
      record_results-AllDated backend ok now
        (world.completion batch (batch_verdicts world.first world.second batch 0 domains)) st.cache
        h

  checkpoint_if_due-going :
      (st st' : SweepState C K)
      → checkpoint_if_due backend world canary config now st ≡ going st'
      → (st'.cache ≡ st.cache) × (st'.checked ≡ st.checked)
  unfolding checkpoint_if_due
  checkpoint_if_due-going st st' h = elim (Option-cases (world.checkpoint st.cache st.sink)) [
    | inl e ↦ ground (arith, e, h)
    | inr (sink, e) ↦ ground (arith, e, h)
  ]

  -- A round that goes on has passed its canary.
  pub after_batch-going :
      (pass : ℕ) (st st' : SweepState C K)
      → after_batch backend world canary config now pass st ≡ going st'
      → (canary_pass_both world.first world.second pass canary ≡ none)
        × (st'.cache ≡ st.cache)
        × (st'.checked ≡ st.checked)
  unfolding after_batch
  after_batch-going pass st st' h =
      elim (Option-cases (canary_pass_both world.first world.second pass canary)) [
        | inl e ↦
            let (c, n) = checkpoint_if_due-going st st' (rw (e, after_batch) at h) in (e, c, n)
        | inr (f, e) ↦ ground (arith, e, h)
      ]

  -- The next round of a loop that goes on.
  sweep_loop-cons :
      (batch : ℕ) (domains : List Bytes) (chunks : List (List Bytes)) (st st' : SweepState C K)
      → sweep_loop backend world canary config now batch (domains ∷ chunks) st ≡ going st'
      → (mid : SweepState C K) × (canary_pass_both world.first world.second (batch + 1) canary
          ≡ none)
        × (mid.cache ≡ (process_batch backend world canary config now batch domains st).cache)
        × (mid.checked ≡ (process_batch backend world canary config now batch domains st).checked)
        × (sweep_loop backend world canary config now (batch + 1) chunks mid ≡ going st')
  unfolding sweep_loop
  sweep_loop-cons batch domains chunks st st' h =
      let next = process_batch backend world canary config now batch domains st in
      elim (Progress-cases (after_batch backend world canary config now (batch + 1) next)) [
        | inl (mid, e) ↦
            let (passed, c, n) = after_batch-going (batch + 1) next mid e in
            (mid, passed, c, n, rw (e, sweep_loop) at h)
        | inr (e, stop) ↦ ground (arith, stop, h)
      ]

  pub sweep_loop-Updated :
      (batch : ℕ) (chunks : List (List Bytes)) (st st' : SweepState C K) (d : Bytes)
      → sweep_loop backend world canary config now batch chunks st ≡ going st'
      → Updated (member d (concat chunks)) d st.cache st'.cache
  unfolding Updated
  sweep_loop-Updated batch [] st st' d h = unfold sweep_loop in ground (arith, h)
  sweep_loop-Updated batch (domains ∷ chunks) st st' d h =
      let (mid, passed, c, n, later) = sweep_loop-cons batch domains chunks st st' h in
      let now_done = process_batch-Updated batch domains st d in
      let rest = sweep_loop-Updated (batch + 1) chunks mid st' d later in
      rw (member-append d domains (concat chunks)) (
        Updated-then (member d domains) (member d (concat chunks)) d st.cache mid.cache st'.cache
          (rw (← c) at now_done) rest)

  -- Every pass of the canary of a loop that goes on has found no failure.
  pub sweep_loop-canaries :
      (batch : ℕ) (chunks : List (List Bytes)) (st st' : SweepState C K)
      → sweep_loop backend world canary config now batch chunks st ≡ going st'
      → (pass : ℕ) → batch < pass
      → pass ≤ batch + length chunks
      → canary_pass_both world.first world.second pass canary ≡ none
  sweep_loop-canaries batch [] st st' h pass lo hi = absurd (omega arith)
  sweep_loop-canaries batch (domains ∷ chunks) st st' h pass lo hi =
      let (mid, passed, c, n, later) = sweep_loop-cons batch domains chunks st st' h in
      elim (Bool-cases (pass == batch + 1)) [
        | inl e ↦ ground (arith, ==→eq pass (batch + 1) e, passed)
        | inr e ↦
            sweep_loop-canaries (batch + 1) chunks mid st' later pass (ground (arith, e, lo))
              (omega arith)
      ]

  pub sweep_loop-checked :
      (batch : ℕ) (chunks : List (List Bytes)) (st st' : SweepState C K)
      → sweep_loop backend world canary config now batch chunks st ≡ going st'
      → st'.checked ≡ st.checked + length (concat chunks)
  unfolding process_batch
  sweep_loop-checked batch [] st st' h = unfold sweep_loop in ground (arith, h)
  sweep_loop-checked batch (domains ∷ chunks) st st' h =
      let (mid, passed, c, n, later) = sweep_loop-cons batch domains chunks st st' h in
      let rs = batch_verdicts world.first world.second batch 0 domains in
      omega (
        arith,
        n,
        sweep_loop-checked (batch + 1) chunks mid st' later,
        (keeps batch rs).0,
        length-batch_verdicts world.first world.second batch 0 domains,
        length-append domains (concat chunks),
      )

  pub sweep_loop-AllDated :
      (batch : ℕ) (chunks : List (List Bytes)) (st st' : SweepState C K)
      → sweep_loop backend world canary config now batch chunks st ≡ going st'
      → AllDated backend ok now st.cache
      → AllDated backend ok now st'.cache
  sweep_loop-AllDated batch [] st st' h dated =
      let same : st.cache ≡ st'.cache = unfold sweep_loop in ground (arith, h) in
      subst (AllDated backend ok now) same dated
  sweep_loop-AllDated batch (domains ∷ chunks) st st' h dated =
      let (mid, passed, c, n, later) = sweep_loop-cons batch domains chunks st st' h in
      sweep_loop-AllDated (batch + 1) chunks mid st' later
        (subst (AllDated backend ok now) (sym c) (process_batch-AllDated batch domains st dated))
