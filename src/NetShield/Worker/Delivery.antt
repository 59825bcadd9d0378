-- ===== src/NetShield/Worker/Delivery.antt =====
-- The worker on its own: the requests that are queued, and the callers that are listed for them.
use holy_blocker.NetShield.Worker.{
  text_eq, some, List, ℕ, FilterAction, Option, Bytes, State, Working, receiving, looked_up, stored,
  counted, decision, spawned, WorkerStep, Reach, sent, looked, put_decision, count_request,
  answer_waiters, has_call,
}
use holy_blocker.NetShield.Worker.Sound.{Reach-Sound, spawned-Sound}
use holy_blocker.NetShield.Worker.Single.{handles}
use holy_blocker.Shared.{
  ◌∙◌, sym, ap, text_eq_iff, inr, [], inl, Bool-cases, ◌⊎◌, arith, false, member, true, ◌≡◌, ◌∷◌,
  refl,
}
use holy_blocker.NetShield.Worker.{take_request, put_step, count_step, answer_step}
use holy_blocker.NetShield.Worker.Right.{WorkerRight}

module _ (outcome : Bytes → Option (Option FilterAction)) where
  -- Steps of the worker alone.
  pub data WorkerRun : State → State → Type 0 where
    stop : {s : State} → WorkerRun s s
    step_on : {s t u : State} → WorkerStep outcome s t → WorkerRun t u → WorkerRun s u

  module _ (c : ℕ) (d : Bytes) (waiters : List ℕ) (listed : has_call c waiters ≡ true) where
    Told : State → Type 0
    Told s = (u : State) × WorkerRun s u × (u.mail c ≡ sent (decision outcome d))

    step-Told : {s t : State} → WorkerStep outcome s t → Told t → Told s
    unfolding Told
    step-Told step (u, run, told) = (u, step_on step run, told)

    answer-Told :
        (s : State) (k : Bytes) (v : Option FilterAction)
        → s.working ≡ counted k v
        → v ≡ decision outcome k
        → s.inflight d ≡ some waiters
        → (text_eq d k ≡ false → Told (answer_waiters k v s))
        → Told s
    unfolding Told answer_waiters
    answer-Told s k v w right there otherwise = elim (Bool-cases (text_eq d k)) [
      | inr other ↦ step-Told (answer_step k v w) (otherwise other)
      | inl alike ↦
          let name : d ≡ k = (text_eq_iff d k).0 alike in
          let found : s.inflight k ≡ some waiters = ap s.inflight (sym name) ∙ there in
          let delivered : (answer_waiters k v s).mail c ≡ sent (decision outcome d) =
            rw (found, listed) (ap sent (right ∙ ap (decision outcome) (sym name))) in
          step-Told (answer_step k v w) (answer_waiters k v s, stop, delivered)
    ]

    stored-Told :
        (s : State) (k : Bytes) (v : Option FilterAction)
        → s.working ≡ stored k v
        → v ≡ decision outcome k
        → s.inflight d ≡ some waiters
        → (text_eq d k ≡ false → Told (answer_waiters k v (count_request k v s)))
        → Told s
    unfolding count_request
    stored-Told s k v w right there otherwise =
        step-Told (count_step k v w)
          (answer-Told (count_request k v s) k v refl right there otherwise)

    looked-Told :
        (s : State) (k : Bytes) (v : Option FilterAction)
        → s.working ≡ looked_up k v
        → v ≡ decision outcome k
        → s.inflight d ≡ some waiters
        → (text_eq d k ≡ false → Told (answer_waiters k v (count_request k v (put_decision k v s))))
        → Told s
    unfolding put_decision
    looked-Told s k v w right there otherwise =
        step-Told (put_step k v w) (stored-Told (put_decision k v s) k v refl right there otherwise)

    -- The worker is free: it takes the requests in their order.
    queued-Told :
        (s : State) (queue : List Bytes)
        → s.queue ≡ queue
        → s.working ≡ receiving
        → s.inflight d ≡ some waiters
        → member d queue ≡ true
        → Told s
    unfolding looked put_decision count_request answer_waiters
    queued-Told s [] q w there h = cc h
    queued-Told s (k ∷ queue) q w there h =
        let v = decision outcome k in
        let taken = looked outcome k queue s in
        let round = answer_waiters k v (count_request k v (put_decision k v taken)) in
        step-Told (take_request k queue w q) (
          looked-Told taken k v refl refl there (λ other.
            queued-Told round queue refl refl (ground (arith, other, there))
              (ground (arith, other, h))))

    -- The worker is at some request: it finishes that one first.
    working-Told :
        (s : State) (working : Working)
        → s.working ≡ working
        → WorkerRight outcome working
        → s.inflight d ≡ some waiters
        → (member d s.queue ≡ true) ⊎ (handles d working ≡ true)
        → Told s
    unfolding put_decision count_request answer_waiters
    working-Told s receiving w right there h = elim h [
      | inl q ↦ queued-Told s s.queue refl w there q
      | inr busy ↦ cc busy
    ]
    working-Told s (counted k v) w right there h = answer-Told s k v w right there (λ other.
        queued-Told (answer_waiters k v s) s.queue refl refl (ground (arith, other, there))
          (ground (arith, other, h)))
    working-Told s (stored k v) w right there h = stored-Told s k v w right there (λ other.
        queued-Told (answer_waiters k v (count_request k v s)) s.queue refl refl
          (ground (arith, other, there)) (ground (arith, other, h)))
    working-Told s (looked_up k v) w right there h = looked-Told s k v w right there (λ other.
        queued-Told (answer_waiters k v (count_request k v (put_decision k v s))) s.queue refl refl
          (ground (arith, other, there)) (ground (arith, other, h)))

  -- From every reachable state, steps of the worker alone lead to one where a caller that is listed
  -- for a domain has the decision of the artifact for it in its channel, if the request for the
  -- domain is in the queue or at the worker.
  pub WorkerRun-sent :
      (cache_capacity : ℕ) {s : State}
      → Reach outcome (spawned cache_capacity) s
      → (c : ℕ) (d : Bytes) (waiters : List ℕ) → s.inflight d ≡ some waiters
      → has_call c waiters ≡ true
      → (member d s.queue ≡ true) ⊎ (handles d s.working ≡ true)
      → (u : State) × WorkerRun s u × (u.mail c ≡ sent (decision outcome d))
  unfolding Told
  WorkerRun-sent cache_capacity {s} r c d waiters there listed h =
      let ok = Reach-Sound outcome (spawned-Sound outcome cache_capacity) r in
      working-Told c d waiters listed s s.working refl ok.worker_right there h
