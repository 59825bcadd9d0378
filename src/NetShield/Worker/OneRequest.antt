-- ===== src/NetShield/Worker/OneRequest.antt =====
-- The reachable states: the domains in flight, their requests and the callers of their entries.
use holy_blocker.NetShield.Worker.{
  has_call, some, get, from_cache, text_eq, ℕ, or_default, List, FilterAction, Option, Bytes, State,
  idle, asking, missed, sending, refused, waiting, timed_out, answered, receiving, counted, spawned,
  Step, WorkerStep, Reach, here, next, looked, put_decision, count_request, answer_waiters,
  after_hit, joined, expired, fell_back,
}
use holy_blocker.NetShield.Worker.Single.{Single, IsOwned, handles, quiet-Single, calls_same}
use holy_blocker.NetShield.Lru.Keys.{Distinct}
use holy_blocker.Shared.{
  Bool-cases, false, inr, text_eq_self, inl, text_eq_iff, true, arith, ◌≡◌, ◌∷◌, refl,
}
use holy_blocker.NetShield.Worker.{take_request, put_step, count_step, answer_step}
use holy_blocker.NetShield.Worker.{
  call_step, hit_step, miss_step, join_step, open_step, send_step, full_step, give_up_step,
  receive_step, expire_step, fall_back_step, worker_step,
}
use mathlib.Core.Path.{subst}
use holy_blocker.NetShield.Worker.Requests.{opened-Single, enqueued-Single, gave_up-Single}
use holy_blocker.NetShield.Worker.Attended.{spawned-Attended, Reach-Attended, Attended}
use holy_blocker.NetShield.Worker.Sound.{spawned-Sound, Reach-Sound}
use holy_blocker.NetShield.Worker.Right.{domain_of}
use holy_blocker.NetShield.Worker.Requester.{Step-Listed, spawned-Listed, RequestersListed}

-- The entries in flight, their requests and the callers that they list.
pub record IsServed (s : State) : Type 0 where
  pub single : Single s
  pub attended : Attended s
  pub requesters : RequestersListed s
  pub asked :
      (d : Bytes) (waiters : List ℕ) (c : ℕ)
      → s.inflight d ≡ some waiters
      → has_call c waiters ≡ true
      → domain_of (s.phase c) ≡ some d

module _ (outcome : Bytes → Option (Option FilterAction)) where
  looked-Single :
      (s : State) (d : Bytes) (rest : List Bytes)
      → Single s
      → s.working ≡ receiving
      → s.queue ≡ d ∷ rest
      → Single (looked outcome d rest s)
  unfolding looked Distinct
  looked-Single s d rest ok w q =
      let alone : Distinct (d ∷ rest) = subst Distinct q ok.distinct in
      let before_it : (f : Bytes) → IsOwned (looked outcome d rest s) f → IsOwned s f = λ f h.
        elim h [
          | inl later ↦ inl (ground (arith, q, later))
          | inr (inl taken) ↦ inl (ground (arith, q, taken))
          | inr (inr r) ↦ inr (inr r)
        ] in
      record {
        distinct = alone.1;
        worker_alone = λ f h. ground (arith, text_eq_iff f d, h, alone.0);
        caller_alone = λ c f h.
            let (no_queue, no_worker) = ok.caller_alone c f h in
            (ground (arith, no_queue, q), ground (arith, no_queue, q));
        callers_alone = ok.callers_alone;
        in_flight = λ f h. ok.in_flight f (before_it f h);
        owned = λ f h. elim (ok.owned f h) [
          | inl there ↦ elim (Bool-cases (text_eq f d)) [
            | inl taken ↦ inr (inl taken)
            | inr other ↦ inl (ground (arith, there, q, other))
          ]
          | inr (inl working) ↦ absurd (ground (arith, working, w))
          | inr (inr r) ↦ inr (inr r)
        ];
      }

  answered-Single :
      (s : State) (d : Bytes) (v : Option FilterAction)
      → Single s
      → s.working ≡ counted d v
      → Single (answer_waiters d v s)
  unfolding answer_waiters
  answered-Single s d v ok w =
      let busy : handles d s.working ≡ true = ground (arith, w, text_eq_self d) in
      let others : (f : Bytes)
          → IsOwned (answer_waiters d v s) f
          → (text_eq f d ≡ false) × IsOwned s f =
        λ f h. elim (Bool-cases (text_eq f d)) [
          | inl alike ↦
              let name = (text_eq_iff f d).0 alike in
              elim h [
                | inl q ↦ ground (arith, q, name, ok.worker_alone d busy)
                | inr (inl none_now) ↦ cc (none_now)
                | inr (inr (k, r)) ↦ ground (arith, r, name, ok.caller_alone k f r, busy)
              ]
          | inr other ↦ (
            other,
            elim h [
              | inl q ↦ inl q
              | inr (inl none_now) ↦ cc (none_now)
              | inr (inr r) ↦ inr (inr r)
            ],
          )
        ] in
      record {
        distinct = ok.distinct;
        worker_alone = λ f h. cc h;
        caller_alone = λ c f h. ((ok.caller_alone c f h).0, refl);
        callers_alone = ok.callers_alone;
        in_flight = λ f h. let (other, o) = others f h in ground (arith, other, ok.in_flight f o);
        owned = λ f h. elim (Bool-cases (text_eq f d)) [
          | inl alike ↦ absurd (ground (arith, alike, h))
          | inr other ↦ elim (ok.owned f (ground (arith, other, h))) [
            | inl q ↦ inl q
            | inr (inl working) ↦ absurd (ground (arith, working, w, other))
            | inr (inr r) ↦ inr (inr r)
          ]
        ];
      }

  WorkerStep-Single : (s u : State) → Single s → WorkerStep outcome s u → Single u
  unfolding put_decision count_request
  WorkerStep-Single s _ ok (take_request d rest w q) = looked-Single s d rest ok w q
  WorkerStep-Single s _ ok (put_step d v w) =
      quiet-Single s _ ok refl (λ f. ground (arith, w)) (λ c f. refl) (λ f. refl)
  WorkerStep-Single s _ ok (count_step d v w) =
      quiet-Single s _ ok refl (λ f. ground (arith, w)) (λ c f. refl) (λ f. refl)
  WorkerStep-Single s _ ok (answer_step d v w) = answered-Single s d v ok w

  Step-Single : (s u : State) → Single s → Step outcome s u → Single u
  unfolding after_hit joined expired fell_back
  Step-Single s _ ok (worker_step u w) = WorkerStep-Single s u ok w
  Step-Single s _ ok (open_step c d e g) = opened-Single s c d ok e g
  Step-Single s _ ok (send_step c d e g) = enqueued-Single s c d ok e
  Step-Single s _ ok (give_up_step c d e) = gave_up-Single s c d ok e
  Step-Single s _ ok (call_step c d e) =
      quiet-Single s _ ok refl (λ f. refl) (calls_same s c idle (asking d) e (λ f. refl))
        (λ f. refl)
  Step-Single s _ ok (hit_step c d v e g) =
      quiet-Single s _ ok refl (λ f. refl)
        (calls_same s c (asking d) (answered d (or_default v)) e (λ f. refl)) (λ f. refl)
  Step-Single s _ ok (miss_step c d e g) =
      quiet-Single s _ ok refl (λ f. refl) (calls_same s c (asking d) (missed d) e (λ f. refl))
        (λ f. refl)
  Step-Single s _ ok (join_step c d waiters e g) =
      quiet-Single s _ ok refl (λ f. refl) (calls_same s c (missed d) (waiting d) e (λ f. refl))
        (λ f. ground (arith, g, text_eq_iff f d))
  Step-Single s _ ok (full_step c d e g) =
      quiet-Single s _ ok refl (λ f. refl) (calls_same s c (sending d) (refused d) e (λ f. refl))
        (λ f. refl)
  Step-Single s _ ok (receive_step c d v e g) =
      quiet-Single s _ ok refl (λ f. refl)
        (calls_same s c (waiting d) (answered d (or_default v)) e (λ f. refl)) (λ f. refl)
  Step-Single s _ ok (expire_step c d e g) =
      quiet-Single s _ ok refl (λ f. refl) (calls_same s c (waiting d) (timed_out d) e (λ f. refl))
        (λ f. refl)
  Step-Single s _ ok (fall_back_step c d e) =
      quiet-Single s _ ok refl (λ f. refl)
        (calls_same s c (timed_out d) (answered d (from_cache (get d s.cache).0)) e (λ f. refl))
        (λ f. refl)

  spawned-Single : (cache_capacity : ℕ) → Single (spawned cache_capacity)
  unfolding spawned Distinct
  spawned-Single cache_capacity = record {
    distinct = tt;
    worker_alone = λ d h. refl;
    caller_alone = λ c d h. cc h;
    callers_alone = λ c k d h g. cc h;
    in_flight = λ d h. elim h [ inl q ↦ cc q | inr (inl q) ↦ cc q | inr (inr (c, r)) ↦ cc r ];
    owned = λ d h. cc h;
  }

  Reach-Single_from : {s u : State} → Single s → Reach outcome s u → Single u
  Reach-Single_from ok here = ok
  Reach-Single_from ok (next {t} {u} r step) = Step-Single t u (Reach-Single_from ok r) step

  Reach-Listed_from :
      {s u : State} → Single s → RequestersListed s → Reach outcome s u → RequestersListed u
  Reach-Listed_from one ok here = ok
  Reach-Listed_from one ok (next {t} {u} r step) =
      Step-Listed outcome t u (Reach-Single_from one r) (Reach-Listed_from one ok r) step

  -- In every state that the callers and the worker reach, a domain has an entry in flight exactly when
  -- it has a request, and no domain has two: it is in the queue, at the worker, or with the one caller
  -- that is about to send or to withdraw it. The entry lists at least one caller, and the one that is
  -- about to send or to withdraw the request; and each caller that it lists asked for that domain,
  -- though it may have stopped waiting since.
  pub Reach-IsServed :
      (cache_capacity : ℕ) {s : State} → Reach outcome (spawned cache_capacity) s → IsServed s
  Reach-IsServed cache_capacity r =
      let start = spawned-Single cache_capacity in
      let sound = Reach-Sound outcome (spawned-Sound outcome cache_capacity) r in
      record {
        single = Reach-Single_from start r;
        attended = Reach-Attended outcome (spawned-Attended outcome cache_capacity) r;
        requesters = Reach-Listed_from start (spawned-Listed outcome cache_capacity) r;
        asked = sound.listed_right;
      }
