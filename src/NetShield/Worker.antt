-- ===== src/NetShield/Worker.antt =====
-- packages/net-shield/src/blocklist.rs, `BlocklistLookup` and its worker thread, as the steps that
-- the callers and the worker take between two locks. A call is a number and has a channel of its
-- own; the maps in memory are functions. The worker never dies, since it catches a panic.
pub mod Right
pub mod Sound
pub mod Single
pub mod Requests
pub mod Attended
pub mod Requester
pub mod OneRequest
pub mod Delivery
mod Runs
use holy_blocker.NetShield.Radix.{FilterAction, proxy}
use holy_blocker.NetShield.Lru.{new, LruCache, get, put}
use holy_blocker.Shared.{
  ◌≤◌, ◌<◌, ◌^◌, length, ◌%◌, any, text_eq, ◌==◌, [], ◌≡◌, none, ◌++◌, some, ◌+◌, Bool,
  if◌then◌else◌, List, Bytes, Option, ℕ, ◌∷◌,
}

abbrev pub channel_capacity : ℕ
channel_capacity = 1024

-- What is in the channel of a call.
pub data Mail : Type 0 where
  empty_mail : Mail
  sent : Option FilterAction → Mail

-- Where a call of `lookup` stands.
pub data Phase : Type 0 where
  idle : Phase
  asking missed sending refused waiting timed_out : Bytes → Phase
  answered : Bytes → FilterAction → Phase

-- Where `handle_lookup` stands: behind the lookup, the put, and the count.
pub data Working : Type 0 where
  receiving : Working
  looked_up stored counted : Bytes → Option FilterAction → Working

pub record State : Type 0 where
  pub queue : List Bytes
  pub inflight : Bytes → Option (List ℕ)
  pub cache : LruCache
  pub worker_requests : ℕ
  pub panics : ℕ
  pub fallback_count : ℕ
  pub mail : ℕ → Mail
  pub working : Working
  pub phase : ℕ → Phase

abbrev pub at_call {ℓ} : {A : Type ℓ} → ℕ → A → (ℕ → A) → ℕ → A
at_call c a f k = if k == c then a else f k

abbrev pub at_domain {ℓ} : {A : Type ℓ} → Bytes → A → (Bytes → A) → Bytes → A
at_domain d a f k = if text_eq k d then a else f k

abbrev pub has_call : ℕ → List ℕ → Bool
has_call c = any (λ w. w == c)

-- `fetch_add` wraps at 64 bits.
abbrev pub increment : ℕ → ℕ
increment n = (n + 1) % 2 ^ 64

-- `unwrap_or(FilterAction::Proxy)`
abbrev pub or_default : Option FilterAction → FilterAction
or_default none = proxy
or_default (some action) = action

-- What a waiter that gave up takes from the cache.
pub from_cache : Option (Option FilterAction) → FilterAction
from_cache none = proxy
from_cache (some decision) = or_default decision

abbrev pub moves_to : ℕ → Phase → State → State
moves_to c p s = record s { phase = at_call c p s.phase }

pub after_hit : ℕ → Bytes → Option FilterAction → State → State
after_hit c d v s = record s {
  cache = (get d s.cache).1;
  phase = at_call c (answered d (or_default v)) s.phase;
}

pub joined : ℕ → Bytes → List ℕ → State → State
joined c d waiters s = record s {
  inflight = at_domain d (some (waiters ++ (c ∷ []))) s.inflight;
  phase = at_call c (waiting d) s.phase;
}

pub opened : ℕ → Bytes → State → State
opened c d s = record s {
  inflight = at_domain d (some (c ∷ [])) s.inflight;
  phase = at_call c (sending d) s.phase;
}

pub enqueued : ℕ → Bytes → State → State
enqueued c d s = record s { queue = s.queue ++ (d ∷ []); phase = at_call c (waiting d) s.phase }

pub gave_up : ℕ → Bytes → State → State
gave_up c d s = record s {
  inflight = at_domain d none s.inflight;
  fallback_count = increment s.fallback_count;
  phase = at_call c (answered d proxy) s.phase;
}

pub expired : ℕ → Bytes → State → State
expired c d s = record s {
  fallback_count = increment s.fallback_count;
  phase = at_call c (timed_out d) s.phase;
}

pub fell_back : ℕ → Bytes → State → State
fell_back c d s = record s {
  cache = (get d s.cache).1;
  phase = at_call c (answered d (from_cache (get d s.cache).0)) s.phase;
}

-- The loop that sends the decision to the waiters.
abbrev pub sent_to : Option (List ℕ) → Option FilterAction → (ℕ → Mail) → ℕ → Mail
sent_to none v mail c = mail c
sent_to (some waiters) v mail c = if has_call c waiters then sent v else mail c

pub put_decision : Bytes → Option FilterAction → State → State
put_decision d v s = record s { cache = put d v s.cache; working = stored d v }

pub count_request : Bytes → Option FilterAction → State → State
count_request d v s = record s {
  worker_requests = increment s.worker_requests;
  working = counted d v;
}

pub answer_waiters : Bytes → Option FilterAction → State → State
answer_waiters d v s = record s {
  inflight = at_domain d none s.inflight;
  mail = sent_to (s.inflight d) v s.mail;
  working = receiving;
}

-- What the lookup of the artifact comes to: a decision, or none for a panic.
module _ (outcome : Bytes → Option (Option FilterAction)) where
  -- The decision of `handle_lookup`.
  abbrev pub decision : Bytes → Option FilterAction
  decision d = elim (outcome d) [ none ↦ none | some v ↦ v ]

  pub looked : Bytes → List Bytes → State → State
  looked d rest s = record s {
    queue = rest;
    panics = elim (outcome d) [ none ↦ increment s.panics | some v ↦ s.panics ];
    working = looked_up d (decision d);
  }

  -- The steps of the worker.
  pub data WorkerStep (s : State) : State → Type 0 where
    take_request :
        (d : Bytes) (rest : List Bytes)
        → s.working ≡ receiving
        → s.queue ≡ d ∷ rest
        → WorkerStep s (looked d rest s)
    put_step :
        (d : Bytes) (v : Option FilterAction)
        → s.working ≡ looked_up d v
        → WorkerStep s (put_decision d v s)
    count_step :
        (d : Bytes) (v : Option FilterAction)
        → s.working ≡ stored d v
        → WorkerStep s (count_request d v s)
    answer_step :
        (d : Bytes) (v : Option FilterAction)
        → s.working ≡ counted d v
        → WorkerStep s (answer_waiters d v s)

  -- The steps of the callers and of the worker.
  pub data Step (s : State) : State → Type 0 where
    call_step : (c : ℕ) (d : Bytes) → s.phase c ≡ idle → Step s (moves_to c (asking d) s)
    hit_step :
        (c : ℕ) (d : Bytes) (v : Option FilterAction)
        → s.phase c ≡ asking d
        → (get d s.cache).0 ≡ some v
        → Step s (after_hit c d v s)
    miss_step :
        (c : ℕ) (d : Bytes)
        → s.phase c ≡ asking d
        → (get d s.cache).0 ≡ none
        → Step s (moves_to c (missed d) s)
    join_step :
        (c : ℕ) (d : Bytes) (waiters : List ℕ)
        → s.phase c ≡ missed d
        → s.inflight d ≡ some waiters
        → Step s (joined c d waiters s)
    open_step :
        (c : ℕ) (d : Bytes) → s.phase c ≡ missed d → s.inflight d ≡ none → Step s (opened c d s)
    send_step :
        (c : ℕ) (d : Bytes)
        → s.phase c ≡ sending d
        → length s.queue < channel_capacity
        → Step s (enqueued c d s)
    full_step :
        (c : ℕ) (d : Bytes)
        → s.phase c ≡ sending d
        → channel_capacity ≤ length s.queue
        → Step s (moves_to c (refused d) s)
    give_up_step : (c : ℕ) (d : Bytes) → s.phase c ≡ refused d → Step s (gave_up c d s)
    receive_step :
        (c : ℕ) (d : Bytes) (v : Option FilterAction)
        → s.phase c ≡ waiting d
        → s.mail c ≡ sent v
        → Step s (moves_to c (answered d (or_default v)) s)
    expire_step :
        (c : ℕ) (d : Bytes) → s.phase c ≡ waiting d → s.mail c ≡ empty_mail → Step s (expired c d s)
    fall_back_step : (c : ℕ) (d : Bytes) → s.phase c ≡ timed_out d → Step s (fell_back c d s)
    worker_step : (u : State) → WorkerStep s u → Step s u

  pub data Reach (s : State) : State → Type 0 where
    here : Reach s s
    next : {t u : State} → Reach s t → Step t u → Reach s u

-- `BlocklistLookup::spawn`
pub spawned : ℕ → State
spawned cache_capacity = record {
  queue = [];
  inflight = λ d. none;
  cache = new cache_capacity;
  worker_requests = 0;
  panics = 0;
  fallback_count = 0;
  mail = λ c. empty_mail;
  working = receiving;
  phase = λ c. idle;
}
