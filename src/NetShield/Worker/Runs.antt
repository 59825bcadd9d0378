-- ===== src/NetShield/Worker/Runs.antt =====
-- One caller asks for a blocked domain: it enqueues its request, and the worker answers it.
use holy_blocker.Shared.{text_eq}
use holy_blocker.NetShield.Worker.{
  decision, or_default, Option, [], some, Bytes, State, asking, missed, answered, sent, moves_to,
  opened, enqueued, looked, put_decision, count_request, answer_waiters, spawned, Reach, here, next,
  call_step, miss_step, open_step, send_step, receive_step, worker_step, take_request, put_step,
  count_step, answer_step,
}
use holy_blocker.NetShield.Worker.Sound.{answered-RightAnswer}
use holy_blocker.NetShield.Worker.OneRequest.{Reach-IsServed, IsServed}
use holy_blocker.NetShield.Worker.Delivery.{WorkerRun, WorkerRun-sent}
use holy_blocker.NetShield.Radix.{FilterAction, block, proxy}
use holy_blocker.NetShield.Lru.{get, map_get, new}
use holy_blocker.Shared.{arith, inl, ◌⊎◌, codes, ◌≡◌, ◌∷◌, refl}

abbrev blocks : Bytes → Option (Option FilterAction)
blocks d = some (some block)

abbrev name : Bytes
name = codes "a.org"

abbrev asked : State
asked = opened 1 name (moves_to 1 (missed name) (moves_to 1 (asking name) (spawned 4)))

abbrev requested : State
requested = enqueued 1 name asked

abbrev handled : State
handled =
    count_request name (some block)
      (put_decision name (some block) (looked blocks name [] requested))

abbrev told : State
told = answer_waiters name (some block) handled

requested_reached : Reach blocks (spawned 4) requested
unfolding spawned opened enqueued get map_get new
requested_reached =
    next
      (next (next (next here (call_step 1 name refl)) (miss_step 1 name refl refl))
        (open_step 1 name refl refl))
      (send_step 1 name refl (omega arith))

told_reached : Reach blocks (spawned 4) told
unfolding spawned opened enqueued looked put_decision count_request answer_waiters text_eq
told_reached =
    next
      (next
        (next (next requested_reached (worker_step _ (take_request name [] refl refl)))
          (worker_step _ (put_step name (some block) refl)))
        (worker_step _ (count_step name (some block) refl)))
      (worker_step _ (answer_step name (some block) refl))

finished : Reach blocks (spawned 4) (moves_to 1 (answered name block) told)
unfolding spawned opened enqueued looked put_decision count_request answer_waiters text_eq
finished = next told_reached (receive_step 1 name (some block) refl refl)

answered-RightAnswer_example : (block ≡ or_default (decision blocks name)) ⊎ (block ≡ proxy)
answered-RightAnswer_example = answered-RightAnswer blocks 4 finished 1 name block refl

Reach-IsServed_example : IsServed requested
Reach-IsServed_example = Reach-IsServed blocks 4 requested_reached

WorkerRun-sent_example :
    (u : State) × WorkerRun blocks requested u × (u.mail 1 ≡ sent (decision blocks name))
unfolding opened enqueued text_eq spawned
WorkerRun-sent_example =
    WorkerRun-sent blocks 4 requested_reached 1 name (1 ∷ []) refl refl (inl refl)
