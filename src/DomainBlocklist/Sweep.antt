-- ===== src/DomainBlocklist/Sweep.antt =====
-- packages/domain-blocklist/src/sweep.rs: the liveness sweep over the entries of the blocklist. The
-- network is a parameter: what each resolver answers at each moment, and the order in which the
-- checks of a batch complete. Pacing and concurrency change those and nothing else.
pub mod Batch
pub mod Chunks
pub mod Loop
pub mod Outcome
pub mod Stream
mod Runs
use holy_blocker.Shared.{
  leb, ltb, ◌&&◌, zero, drop, length, not, if◌then◌else◌, take, ◌++◌, ◌+◌, suc, Bool, Option, List,
  Bytes, ℕ, none, some, true, false, [], ◌∷◌,
}
use holy_blocker.DomainBlocklist.Liveness.Lookup.{
  verdict_eq, check, check_corroborated, Answers, Verdict, alive, dead, unknown, timeout, transport,
}
use holy_blocker.DomainBlocklist.Backend.{CacheBackend}
use holy_blocker.DomainBlocklist.Liveness.Canary.{CanaryConfig, ControlFailure}
use holy_blocker.DomainBlocklist.Liveness.Cache.{
  due_for_check, should_prune_with_hysteresis, CacheEntry,
}
use holy_blocker.DomainBlocklist.Types.{MergedEntry}

-- When a resolver is asked: by the canary, in its pass, at a control, in an attempt; or in a batch,
-- at a position.
pub data Moment : Type 0 where
  control : ℕ → ℕ → ℕ → Moment
  batched : ℕ → ℕ → Moment

abbrev pub Resolver : Type 0
Resolver = Moment → Bytes → Answers

-- Without the resolvers, the pace and the concurrency.
pub record SweepConfig : Type 0 where
  pub canary_every : ℕ
  pub ttl_seconds : ℕ
  pub quarantine_seconds : ℕ
  pub checkpoint_every : ℕ

pub data Which : Type 0 where
  primary secondary : Which

-- Without the failures of starting a DNS client and of reading the entries from a file.
pub data SweepError : Type 0 where
  initial_canary_failed : Which → List ControlFailure → SweepError
  mid_sweep_canary_failed : Which → ℕ → List ControlFailure → SweepError
  checkpoint_failed : ℕ → SweepError

-- The set of pruned domains is a list in the order of the entries.
pub record SweepOutcome (C : Type 0) : Type 0 where
  pub cache : C
  pub pruned_domains : List Bytes
  pub checked_count : ℕ

pub data SweepResult (C : Type 0) : Type 0 where
  swept : SweepOutcome C → SweepResult C
  sweep_failed : SweepError → SweepResult C

pub is_transient_no_answer : Verdict → Bool
is_transient_no_answer (unknown timeout) = true
is_transient_no_answer (unknown transport) = true
is_transient_no_answer _ = false

-- The loop behind the first check, with the attempts that are left.
retry : ℕ → (ℕ → Verdict) → Verdict → ℕ → Verdict → Verdict
retry zero ask expected attempt v = v
retry (suc left) ask expected attempt v =
    let again = retry left ask expected (attempt + 1) (ask (attempt + 1)) in
    if not (verdict_eq v expected) && is_transient_no_answer v then again else v

-- CANARY_RETRY_ATTEMPTS is 3.
pub check_control_with_retry : (ℕ → Verdict) → Verdict → Verdict
check_control_with_retry ask expected = retry 2 ask expected 1 (ask 1)

-- One of the two loops of `canary_pass_async`, its first control at the given place.
control_failures : Resolver → ℕ → Verdict → ℕ → List Bytes → List ControlFailure
control_failures resolver pass expected at [] = []
control_failures resolver pass expected at (domain ∷ domains) =
    let rest = control_failures resolver pass expected (at + 1) domains in
    let v =
      check_control_with_retry (λ attempt. check (resolver (control pass at attempt) domain))
        expected in
    let failure : ControlFailure = record { domain = domain; expected = expected; got = v } in
    if verdict_eq v expected then rest else failure ∷ rest

pub canary_pass_async : Resolver → ℕ → CanaryConfig → List ControlFailure
canary_pass_async resolver pass canary =
    control_failures resolver pass alive 0 canary.alive_controls
    ++ control_failures resolver pass dead (length canary.alive_controls) canary.dead_controls

pub canary_pass_both : Resolver → Resolver → ℕ → CanaryConfig → Option (Which × List ControlFailure)
canary_pass_both first second pass canary = elim (canary_pass_async first pass canary) [
  | f ∷ failures ↦ some (primary, f ∷ failures)
  | [] ↦ elim (canary_pass_async second pass canary) [
    | f ∷ failures ↦ some (secondary, f ∷ failures)
    | [] ↦ none
  ]
]

-- `entry_before.first_dead_at`, of the entry before or of the default.
dead_since : Option CacheEntry → Option ℕ
dead_since none = none
dead_since (some entry) = entry.first_dead_at

first_dead : Verdict → Option ℕ → ℕ → Option ℕ
first_dead dead none now = some now
first_dead dead (some t) now = some t
first_dead _ before now = none

pub entry_after : Verdict → Option CacheEntry → ℕ → CacheEntry
entry_after v before now = record {
  last_checked = now;
  verdict = v;
  first_dead_at = first_dead v (dead_since before) now;
}

-- The verdicts of a batch by position.
pub batch_verdicts : Resolver → Resolver → ℕ → ℕ → List Bytes → List (Bytes × Verdict)
batch_verdicts first second batch at [] = []
batch_verdicts first second batch at (domain ∷ domains) =
    (
      domain,
      check_corroborated (first (batched batch at) domain) (second (batched batch at) domain),
    )
    ∷ batch_verdicts first second batch (at + 1) domains

-- `chunks(size)`
pub chunks_of : ℕ → ℕ → List Bytes → List (List Bytes)
chunks_of zero size domains = []
chunks_of (suc rounds) size [] = []
chunks_of (suc rounds) size (d ∷ domains) =
    take size (d ∷ domains) ∷ chunks_of rounds size (drop size (d ∷ domains))

module _ {C : Type 0} (backend : CacheBackend C) where
  -- The loop over the results of a batch.
  pub record_results : ℕ → List (Bytes × Verdict) → C → C
  record_results now [] cache = cache
  record_results now ((domain, v) ∷ results) cache =
      record_results now results
        (backend.set domain (entry_after v (backend.get domain cache) now) cache)

  pub due_domains : C → ℕ → ℕ → List MergedEntry → List Bytes
  due_domains cache now ttl_seconds [] = []
  due_domains cache now ttl_seconds (e ∷ entries) =
      let rest = due_domains cache now ttl_seconds entries in
      if due_for_check (backend.get e.domain cache) now ttl_seconds then e.domain ∷ rest else rest

  prunes : C → ℕ → ℕ → MergedEntry → Bool
  prunes cache now quarantine_seconds e = elim (backend.get e.domain cache) [
    | none ↦ false
    | some cached ↦
        should_prune_with_hysteresis cached e.domain cached.verdict now quarantine_seconds
  ]

  pub pruned_of : C → ℕ → ℕ → List MergedEntry → List Bytes
  pruned_of cache now quarantine_seconds [] = []
  pruned_of cache now quarantine_seconds (e ∷ entries) =
      let rest = pruned_of cache now quarantine_seconds entries in
      if prunes cache now quarantine_seconds e then e.domain ∷ rest else rest

  -- The world around a sweep: the two resolvers, the order of completion of each batch, and the
  -- checkpoint sink with its state.
  pub record World (K : Type 0) : Type 0 where
    pub first : Resolver
    pub second : Resolver
    pub completion : ℕ → List (Bytes × Verdict) → List (Bytes × Verdict)
    pub checkpoint : C → K → Option K

pub record SweepState (C K : Type 0) : Type 0 where
  pub cache : C
  pub checked : ℕ
  pub since_checkpoint : ℕ
  pub sink : K

pub data Progress (C K : Type 0) : Type 0 where
  going : SweepState C K → Progress C K
  stopped : SweepError → Progress C K

-- `n.max(1)`
abbrev pub at_least_one : ℕ → ℕ
at_least_one zero = 1
at_least_one (suc n) = suc n

module _ {C K : Type 0} (backend : CacheBackend C) (world : World backend K) (canary : CanaryConfig)
    (config : SweepConfig) (now : ℕ) where
  pub process_batch : ℕ → List Bytes → SweepState C K → SweepState C K
  process_batch batch domains st =
      let results =
        world.completion batch (batch_verdicts world.first world.second batch 0 domains) in
      record {
        cache = record_results backend now results st.cache;
        checked = st.checked + length results;
        since_checkpoint = st.since_checkpoint + length results;
        sink = st.sink;
      }

  checkpoint_if_due : SweepState C K → Progress C K
  checkpoint_if_due st =
      if ltb 0 config.checkpoint_every && leb config.checkpoint_every st.since_checkpoint
      then elim (world.checkpoint st.cache st.sink) [
        | none ↦ stopped (checkpoint_failed st.checked)
        | some sink ↦
            going
              (record { cache = st.cache; checked = st.checked; since_checkpoint = 0; sink = sink })
      ]
      else going st

  -- The rest of a round: the canary, with the number of its pass, and the checkpoint.
  pub after_batch : ℕ → SweepState C K → Progress C K
  after_batch pass st = elim (canary_pass_both world.first world.second pass canary) [
    | some (which, failures) ↦ stopped (mid_sweep_canary_failed which st.checked failures)
    | none ↦ checkpoint_if_due st
  ]

  pub sweep_loop : ℕ → List (List Bytes) → SweepState C K → Progress C K
  sweep_loop batch [] st = going st
  sweep_loop batch (domains ∷ chunks) st =
      elim (after_batch (batch + 1) (process_batch batch domains st)) [
        | stopped e ↦ stopped e
        | going st' ↦ sweep_loop (batch + 1) chunks st'
      ]

  finish : List MergedEntry → Progress C K → SweepResult C
  finish entries (stopped e) = sweep_failed e
  finish entries (going st) = swept (record {
    cache = st.cache;
    pruned_domains = pruned_of backend st.cache now config.quarantine_seconds entries;
    checked_count = st.checked;
  })

  start : C → K → SweepState C K
  start cache sink = record { cache = cache; checked = 0; since_checkpoint = 0; sink = sink }

  pub run_sweep_with_resolvers : List MergedEntry → C → K → SweepResult C
  run_sweep_with_resolvers entries cache sink =
      let due = due_domains backend cache now config.ttl_seconds entries in
      let chunks = chunks_of (length due) (at_least_one config.canary_every) due in
      elim (canary_pass_both world.first world.second 0 canary) [
        | some (which, failures) ↦ sweep_failed (initial_canary_failed which failures)
        | none ↦ finish entries (sweep_loop 0 chunks (start cache sink))
      ]
