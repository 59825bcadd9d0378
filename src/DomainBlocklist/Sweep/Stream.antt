-- ===== src/DomainBlocklist/Sweep/Stream.antt =====
-- packages/domain-blocklist/src/sweep.rs, `run_sweep_streaming`: the sweep over entries that are read
-- from a file. A file is what its reader gives; it is opened twice.
pub mod Fill
pub mod Round
pub mod Resident
mod Runs
use holy_blocker.DomainBlocklist.Sweep.{
  leb, ltb, due_for_check, suc, some, false, CanaryConfig, [], MergedEntry, CacheBackend, ℕ, Bool,
  Bytes, SweepOutcome, List, SweepConfig, SweepError, World, SweepState, Progress, going, stopped,
  initial_canary_failed, mid_sweep_canary_failed, checkpoint_failed, process_batch,
  canary_pass_both, start, prunes, at_least_one,
}
use holy_blocker.Shared.{◌&&◌, zero, none, if◌then◌else◌, true, ◌+◌, ◌∷◌}

-- What a reader gives, entry by entry, up to the end of the file or to a failure with its message.
pub data Reading : Type 0 where
  end_of_file : Reading
  read_failed : List ℕ → Reading
  read_entry : MergedEntry → Reading → Reading

pub data StreamError : Type 0 where
  sweep_error : SweepError → StreamError
  entries_read_failed : List ℕ → StreamError

pub data StreamResult (C : Type 0) : Type 0 where
  streamed : SweepOutcome C → StreamResult C
  stream_failed : StreamError → StreamResult C
  unfinished : StreamResult C

-- A batch, whether it met the end of the file, and what is left to read.
pub data Filled : Type 0 where
  filled : List Bytes → Bool → Reading → Filled
  fill_failed : List ℕ → Filled

abbrev pub push_domain : Bytes → Filled → Filled
push_domain d (filled batch eof file) = filled (d ∷ batch) eof file
push_domain d (fill_failed message) = fill_failed message

-- The second pass over the file.
pub data Scanned : Type 0 where
  scanned : List Bytes → Scanned
  scan_failed : List ℕ → Scanned

abbrev pub push_pruned : Bool → Bytes → Scanned → Scanned
push_pruned true d (scanned domains) = scanned (d ∷ domains)
push_pruned false d (scanned domains) = scanned domains
push_pruned b d (scan_failed message) = scan_failed message

-- Where the loop ends; a round that is missing is never needed.
pub data LoopEnd (C K : Type 0) : Type 0 where
  read_to_end : SweepState C K → LoopEnd C K
  halted : StreamError → LoopEnd C K
  out_of_rounds : LoopEnd C K

pub entries_in : Reading → ℕ
entries_in end_of_file = 0
entries_in (read_failed message) = 0
entries_in (read_entry e file) = 1 + entries_in file

module _ {C : Type 0} (backend : CacheBackend C) where
  pub prune_scan : C → ℕ → ℕ → Reading → Scanned
  prune_scan cache now quarantine_seconds end_of_file = scanned []
  prune_scan cache now quarantine_seconds (read_failed message) = scan_failed message
  prune_scan cache now quarantine_seconds (read_entry e file) =
      push_pruned (prunes backend cache now quarantine_seconds e) e.domain
        (prune_scan cache now quarantine_seconds file)

  -- The inner loop, with the room that the batch has left.
  pub fill_batch : C → ℕ → ℕ → ℕ → Reading → Filled
  fill_batch cache now ttl_seconds zero file = filled [] false file
  fill_batch cache now ttl_seconds (suc room) end_of_file = filled [] true end_of_file
  fill_batch cache now ttl_seconds (suc room) (read_failed message) = fill_failed message
  fill_batch cache now ttl_seconds (suc room) (read_entry e file) =
      let taken = push_domain e.domain (fill_batch cache now ttl_seconds room file) in
      let passed = fill_batch cache now ttl_seconds (suc room) file in
      if due_for_check (backend.get e.domain cache) now ttl_seconds then taken else passed

module _ {C K : Type 0} (backend : CacheBackend C) (world : World backend K) (canary : CanaryConfig)
    (config : SweepConfig) (now : ℕ) where
  pub flush_if_due : SweepState C K → Progress C K
  flush_if_due st =
      if ltb 0 config.checkpoint_every && leb config.checkpoint_every st.since_checkpoint
      then elim (backend.flush st.cache) [
        | none ↦ stopped (checkpoint_failed st.checked)
        | some cache ↦
            going
              (record { cache = cache; checked = st.checked; since_checkpoint = 0; sink = st.sink })
      ]
      else going st

  -- The rest of a round: the canary, and the checkpoint, which flushes the cache.
  pub after_stream_batch : ℕ → SweepState C K → Progress C K
  after_stream_batch pass st = elim (canary_pass_both world.first world.second pass canary) [
    | some (which, failures) ↦ stopped (mid_sweep_canary_failed which st.checked failures)
    | none ↦ flush_if_due st
  ]

  pub stream_loop : ℕ → ℕ → Reading → SweepState C K → LoopEnd C K
  stream_loop zero batch file st = out_of_rounds
  stream_loop (suc rounds) batch file st =
      elim (fill_batch backend st.cache now config.ttl_seconds (at_least_one config.canary_every)
        file) [
          | fill_failed message ↦ halted (entries_read_failed message)
          | filled [] true rest ↦ read_to_end st
          | filled [] false rest ↦ stream_loop rounds (batch + 1) rest st
          | filled (d ∷ domains) eof rest ↦
              elim (after_stream_batch (batch + 1)
                (process_batch backend world canary config now batch (d ∷ domains) st)) [
                  | stopped e ↦ halted (sweep_error e)
                  | going st' ↦ elim eof [
                    | true ↦ read_to_end st'
                    | false ↦ stream_loop rounds (batch + 1) rest st'
                  ]
                ]
        ]

  pub prune_streamed : Reading → ℕ → C → StreamResult C
  prune_streamed file checked cache =
      elim (prune_scan backend cache now config.quarantine_seconds file) [
        | scan_failed message ↦ stream_failed (entries_read_failed message)
        | scanned domains ↦
            streamed (record { cache = cache; pruned_domains = domains; checked_count = checked })
      ]

  pub finish_stream : Reading → LoopEnd C K → StreamResult C
  finish_stream file out_of_rounds = unfinished
  finish_stream file (halted e) = stream_failed e
  finish_stream file (read_to_end st) = elim (backend.flush st.cache) [
    | none ↦ stream_failed (sweep_error (checkpoint_failed st.checked))
    | some cache ↦ prune_streamed file st.checked cache
  ]

  -- The file as the first and as the second reader find it.
  pub run_sweep_streaming : Reading → Reading → C → K → StreamResult C
  run_sweep_streaming file file' cache sink =
      elim (canary_pass_both world.first world.second 0 canary) [
        | some (which, failures) ↦
            stream_failed (sweep_error (initial_canary_failed which failures))
        | none ↦ finish_stream file' (
            stream_loop (entries_in file + 1) 0 file
              (start backend world canary config now cache sink))
      ]
