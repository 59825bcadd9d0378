-- ===== src/NetShield/Worker/Attended.antt =====
-- The callers that the entry of a domain in flight lists.
use holy_blocker.NetShield.Worker.{
  [], text_eq, some, State, Bytes, List, ℕ, Option, FilterAction, has_call, Reach, Step, WorkerStep,
  spawned, looked, put_decision, count_request, answer_waiters, after_hit, joined, opened, enqueued,
  gave_up, expired, fell_back,
}
use holy_blocker.NetShield.Worker.{here, next}
use holy_blocker.NetShield.Worker.{take_request, put_step, count_step, answer_step}
use holy_blocker.NetShield.Worker.{
  call_step, hit_step, miss_step, join_step, open_step, send_step, full_step, give_up_step,
  receive_step, expire_step, fall_back_step, worker_step,
}
use holy_blocker.Shared.{inr, inl, ◌∷◌, Bool-cases, ◌++◌, ◌≡◌, true, arith}

-- Every entry in flight lists a caller.
abbrev pub Attended : State → Type 0
Attended s =
    (d : Bytes) (waiters : List ℕ)
    → s.inflight d ≡ some waiters
    → (c : ℕ) × (has_call c waiters ≡ true)

has_call-last : (c : ℕ) (waiters : List ℕ) → has_call c (waiters ++ (c ∷ [])) ≡ true
has_call-last c [] = ground arith
has_call-last c (w ∷ waiters) = ground (arith, has_call-last c waiters)

module _ (outcome : Bytes → Option (Option FilterAction)) where
  WorkerStep-Attended : (s u : State) → Attended s → WorkerStep outcome s u → Attended u
  unfolding looked put_decision count_request answer_waiters
  WorkerStep-Attended s _ ok (take_request d rest w q) = ok
  WorkerStep-Attended s _ ok (put_step d v w) = ok
  WorkerStep-Attended s _ ok (count_step d v w) = ok
  WorkerStep-Attended s _ ok (answer_step d v w) = λ f waiters e. elim (Bool-cases (text_eq f d)) [
    | inl alike ↦ absurd (ground (arith, e, alike))
    | inr other ↦ ok f waiters (ground (arith, e, other))
  ]

  Step-Attended : (s u : State) → Attended s → Step outcome s u → Attended u
  unfolding after_hit joined opened enqueued gave_up expired fell_back
  Step-Attended s _ ok (worker_step u w) = WorkerStep-Attended s u ok w
  Step-Attended s _ ok (call_step c d e) = ok
  Step-Attended s _ ok (hit_step c d v e g) = ok
  Step-Attended s _ ok (miss_step c d e g) = ok
  Step-Attended s _ ok (join_step c d waiters e g) = λ f ws h. elim (Bool-cases (text_eq f d)) [
    | inl alike ↦ (c, ground (arith, h, alike, has_call-last c waiters))
    | inr other ↦ ok f ws (ground (arith, h, other))
  ]
  Step-Attended s _ ok (open_step c d e g) = λ f ws h. elim (Bool-cases (text_eq f d)) [
    | inl alike ↦ (c, ground (arith, h, alike))
    | inr other ↦ ok f ws (ground (arith, h, other))
  ]
  Step-Attended s _ ok (send_step c d e g) = ok
  Step-Attended s _ ok (full_step c d e g) = ok
  Step-Attended s _ ok (give_up_step c d e) = λ f ws h. elim (Bool-cases (text_eq f d)) [
    | inl alike ↦ absurd (ground (arith, h, alike))
    | inr other ↦ ok f ws (ground (arith, h, other))
  ]
  Step-Attended s _ ok (receive_step c d v e g) = ok
  Step-Attended s _ ok (expire_step c d e g) = ok
  Step-Attended s _ ok (fall_back_step c d e) = ok

  pub Reach-Attended : {s u : State} → Attended s → Reach outcome s u → Attended u
  Reach-Attended ok here = ok
  Reach-Attended ok (next {t} {u} r step) = Step-Attended t u (Reach-Attended ok r) step

  pub spawned-Attended : (cache_capacity : ℕ) → Attended (spawned cache_capacity)
  unfolding spawned
  spawned-Attended cache_capacity = λ d waiters e. cc e
