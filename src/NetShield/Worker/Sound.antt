-- ===== src/NetShield/Worker/Sound.antt =====
-- What the callers are told: the decision of the artifact for their domain, or the default.
use holy_blocker.NetShield.Worker.{
  next, Reach, spawned, get, from_cache, fall_back_step, expire_step, receive_step, give_up_step,
  full_step, send_step, open_step, join_step, miss_step, hit_step, text_eq, call_step, answer_step,
  worker_step, count_step, Step, fell_back, put_step, expired, take_request, gave_up, WorkerStep,
  enqueued, answer_waiters, opened, [], count_request, joined, put_decision, after_hit, looked,
  proxy, ℕ, List, some, FilterAction, Bytes, Option, State, Phase, asking, missed, sending, refused,
  waiting, timed_out, answered, decision, has_call, or_default,
}
use holy_blocker.NetShield.Worker.{here, next}
use holy_blocker.NetShield.Lru.Items.{new-AllItems, get-found, get-AllItems, put-AllItems}
use holy_blocker.Shared.{
  ◌∙◌, text_eq_iff, refl, ap, Option-cases, ◌∷◌, ◌++◌, inr, arith, inl, Bool-cases, true, ◌⊎◌, ◌≡◌,
}
use mathlib.Core.Path.{subst}
use holy_blocker.NetShield.Worker.Right.{
  domain_of, Decided, WorkerRight, RightAnswer, PhaseRight, Sound, move-Sound,
}

module _ (outcome : Bytes → Option (Option FilterAction)) where
  WorkerStep-Sound : (s u : State) → Sound outcome s → WorkerStep outcome s u → Sound outcome u
  unfolding looked put_decision count_request answer_waiters
  WorkerStep-Sound s _ ok (take_request d rest w q) = record {
    cache_right = ok.cache_right;
    worker_right = refl;
    listed_right = ok.listed_right;
    mail_right = ok.mail_right;
    answers_right = ok.answers_right;
  }
  WorkerStep-Sound s _ ok (put_step d v w) =
      let right : Decided outcome d v = subst (WorkerRight outcome) w ok.worker_right in
      record {
        cache_right = put-AllItems (Decided outcome) d v s.cache right ok.cache_right;
        worker_right = right;
        listed_right = ok.listed_right;
        mail_right = ok.mail_right;
        answers_right = ok.answers_right;
      }
  WorkerStep-Sound s _ ok (count_step d v w) = record {
    cache_right = ok.cache_right;
    worker_right = subst (WorkerRight outcome) w ok.worker_right;
    listed_right = ok.listed_right;
    mail_right = ok.mail_right;
    answers_right = ok.answers_right;
  }
  WorkerStep-Sound s _ ok (answer_step d v w) =
      let right : Decided outcome d v = subst (WorkerRight outcome) w ok.worker_right in
      record {
        cache_right = ok.cache_right;
        worker_right = tt;
        listed_right = λ k waiters c e h. elim (Bool-cases (text_eq k d)) [
          | inl here_too ↦ ground (arith, e, here_too)
          | inr other ↦ ok.listed_right k waiters c (ground (arith, e, other)) h
        ];
        mail_right = λ c x e. elim (Option-cases (s.inflight d)) [
          | inl nobody ↦ ok.mail_right c x (ground (arith, e, nobody))
          | inr (waiters, found) ↦ elim (Bool-cases (has_call c waiters)) [
            | inl told ↦
                (d, ok.listed_right d waiters c found told, ground (arith, e, found, told, right))
            | inr other ↦ ok.mail_right c x (ground (arith, e, found, other))
          ]
        ];
        answers_right = ok.answers_right;
      }

  -- The same domain at the same call.
  stays :
      (s : State) (c : ℕ) (d : Bytes) (p q : Phase)
      → s.phase c ≡ p
      → domain_of p ≡ domain_of q
      → (k : Bytes) → domain_of (s.phase c) ≡ some k
      → domain_of q ≡ some k
  stays s c d p q e same_domain k h = cc (e, same_domain, h)

  unlisted :
      (s : State)
      → Sound outcome s
      → (c : ℕ) (p : Phase) (d : Bytes) (waiters : List ℕ) (k : ℕ) → s.inflight d ≡ some waiters
      → has_call k waiters ≡ true
      → ((k ≡ c) × (domain_of p ≡ some d)) ⊎ (domain_of (s.phase k) ≡ some d)
  unlisted s ok c p d waiters k e h = inr (ok.listed_right d waiters k e h)

  has_call-snoc :
      (k c : ℕ) (waiters : List ℕ)
      → has_call k (waiters ++ (c ∷ [])) ≡ true
      → (has_call k waiters ≡ true) ⊎ (k ≡ c)
  has_call-snoc k c [] h = inr (ground (arith, h))
  has_call-snoc k c (w ∷ waiters) h = ground (arith, h, has_call-snoc k c waiters)

  fallback :
      (s : State)
      → Sound outcome s
      → (d : Bytes) → RightAnswer outcome d (from_cache (get d s.cache).0)
  unfolding from_cache
  fallback s ok d = elim (Option-cases (get d s.cache).0) [
    | inl e ↦ inr (ground (arith, e))
    | inr (v, e) ↦
        let right : Decided outcome d v =
          get-found (Decided outcome) d s.cache v ok.cache_right e in
        inl (ground (arith, e, right))
  ]

  Step-Sound : (s u : State) → Sound outcome s → Step outcome s u → Sound outcome u
  unfolding after_hit joined opened enqueued gave_up expired fell_back
  Step-Sound s _ ok (worker_step u w) = WorkerStep-Sound s u ok w
  Step-Sound s _ ok (call_step c d e) =
      move-Sound outcome s _ c (asking d) ok refl refl refl ok.cache_right (λ k h. cc (e, h))
        (unlisted s ok c (asking d)) tt
  Step-Sound s _ ok (hit_step c d v e g) =
      move-Sound outcome s _ c (answered d (or_default v)) ok refl refl refl
        (get-AllItems (Decided outcome) d s.cache ok.cache_right)
        (stays s c d (asking d) (answered d (or_default v)) e refl)
        (unlisted s ok c (answered d (or_default v)))
        (inl (ap or_default (get-found (Decided outcome) d s.cache v ok.cache_right g)))
  Step-Sound s _ ok (miss_step c d e g) =
      move-Sound outcome s _ c (missed d) ok refl refl refl ok.cache_right
        (stays s c d (asking d) (missed d) e refl) (unlisted s ok c (missed d)) tt
  Step-Sound s _ ok (join_step c d waiters e g) =
      move-Sound outcome s _ c (waiting d) ok refl refl refl ok.cache_right
        (stays s c d (missed d) (waiting d) e refl)
        (λ k ws j at h. elim (Bool-cases (text_eq k d)) [
          | inl same_name ↦ elim (has_call-snoc j c waiters (ground (arith, at, same_name, h))) [
            | inl old ↦
                inr (ground (arith, ok.listed_right d waiters j g old, text_eq_iff k d, same_name))
            | inr own ↦ inl (own, ground (arith, text_eq_iff k d, same_name))
          ]
          | inr other ↦ inr (ok.listed_right k ws j (ground (arith, at, other)) h)
        ])
        tt
  Step-Sound s _ ok (open_step c d e g) =
      move-Sound outcome s _ c (sending d) ok refl refl refl ok.cache_right
        (stays s c d (missed d) (sending d) e refl)
        (λ k ws j at h. elim (Bool-cases (text_eq k d)) [
          | inl same_name ↦
              inl (ground (arith, at, same_name, h), ground (arith, text_eq_iff k d, same_name))
          | inr other ↦ inr (ok.listed_right k ws j (ground (arith, at, other)) h)
        ])
        tt
  Step-Sound s _ ok (send_step c d e g) =
      move-Sound outcome s _ c (waiting d) ok refl refl refl ok.cache_right
        (stays s c d (sending d) (waiting d) e refl) (unlisted s ok c (waiting d)) tt
  Step-Sound s _ ok (full_step c d e g) =
      move-Sound outcome s _ c (refused d) ok refl refl refl ok.cache_right
        (stays s c d (sending d) (refused d) e refl) (unlisted s ok c (refused d)) tt
  Step-Sound s _ ok (give_up_step c d e) =
      move-Sound outcome s _ c (answered d proxy) ok refl refl refl ok.cache_right
        (stays s c d (refused d) (answered d proxy) e refl)
        (λ k ws j at h. elim (Bool-cases (text_eq k d)) [
          | inl same_name ↦ absurd (ground (arith, at, same_name))
          | inr other ↦ inr (ok.listed_right k ws j (ground (arith, at, other)) h)
        ])
        (inr refl)
  Step-Sound s _ ok (receive_step c d v e g) =
      let (k, asks, right) = ok.mail_right c v g in
      let same_domain : k ≡ d = ground (arith, e, asks) in
      move-Sound outcome s _ c (answered d (or_default v)) ok refl refl refl ok.cache_right
        (stays s c d (waiting d) (answered d (or_default v)) e refl)
        (unlisted s ok c (answered d (or_default v)))
        (inl (ap or_default (right ∙ ap (decision outcome) same_domain)))
  Step-Sound s _ ok (expire_step c d e g) =
      move-Sound outcome s _ c (timed_out d) ok refl refl refl ok.cache_right
        (stays s c d (waiting d) (timed_out d) e refl) (unlisted s ok c (timed_out d)) tt
  Step-Sound s _ ok (fall_back_step c d e) =
      move-Sound outcome s _ c (answered d (from_cache (get d s.cache).0)) ok refl refl refl
        (get-AllItems (Decided outcome) d s.cache ok.cache_right)
        (stays s c d (timed_out d) (answered d (from_cache (get d s.cache).0)) e refl)
        (unlisted s ok c (answered d (from_cache (get d s.cache).0))) (fallback s ok d)

  pub spawned-Sound : (cache_capacity : ℕ) → Sound outcome (spawned cache_capacity)
  unfolding spawned
  spawned-Sound cache_capacity = record {
    cache_right = new-AllItems (Decided outcome) cache_capacity;
    worker_right = tt;
    listed_right = λ d waiters c e h. cc e;
    mail_right = λ c v e. cc e;
    answers_right = λ c. tt;
  }

  pub Reach-Sound : {s u : State} → Sound outcome s → Reach outcome s u → Sound outcome u
  Reach-Sound ok here = ok
  Reach-Sound ok (next {t} {u} r step) = Step-Sound t u (Reach-Sound ok r) step

  -- However the callers and the worker take turns, a call that is answered is told what the artifact
  -- decides for its domain, where no rule and a panic count as the default, or it is told the default.
  pub answered-RightAnswer :
      (cache_capacity : ℕ) {s : State}
      → Reach outcome (spawned cache_capacity) s
      → (c : ℕ) (d : Bytes) (a : FilterAction) → s.phase c ≡ answered d a
      → (a ≡ or_default (decision outcome d)) ⊎ (a ≡ proxy)
  answered-RightAnswer cache_capacity r c d a e =
      subst (PhaseRight outcome) e ((Reach-Sound (spawned-Sound cache_capacity) r).answers_right c)
