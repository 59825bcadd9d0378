-- ===== src/NetShield/Worker/Requester.antt =====
-- The caller that is about to send a request or to withdraw it, and the entry of its domain.
use holy_blocker.NetShield.Worker.Requests.{requesting-at_call, opened_request}
use holy_blocker.NetShield.Worker.Single.{Single, requesting}
use holy_blocker.NetShield.Worker.{
  moves_to, get, from_cache, timed_out, missed, or_default, proxy, asking, answered, refused,
  waiting, none, at_call, at_domain, Phase, [], text_eq, some, State, Bytes, List, ℕ, Option,
  FilterAction, has_call, Step, WorkerStep, spawned, looked, put_decision, count_request,
  answer_waiters, after_hit, joined, opened, enqueued, gave_up, expired, fell_back,
}
use holy_blocker.NetShield.Worker.{take_request, put_step, count_step, answer_step}
use holy_blocker.NetShield.Worker.{
  call_step, hit_step, miss_step, join_step, open_step, send_step, full_step, give_up_step,
  receive_step, expire_step, fall_back_step, worker_step,
}
use holy_blocker.Shared.{
  refl, text_eq_self, text_eq_iff, sym, ◌∙◌, ap, ==→eq, false, ◌==◌, inr, inl, ◌∷◌, Bool-cases,
  ◌++◌, ◌≡◌, true, arith,
}
use mathlib.Core.Path.{subst}

abbrev pub IsListed : State → ℕ → Bytes → Type 0
IsListed s c d = (waiters : List ℕ) × (s.inflight d ≡ some waiters) × (has_call c waiters ≡ true)

abbrev pub RequestersListed : State → Type 0
RequestersListed s = (c : ℕ) (d : Bytes) → requesting d (s.phase c) ≡ true → IsListed s c d

has_call-snoc_old :
    (k c : ℕ) (waiters : List ℕ)
    → has_call k waiters ≡ true
    → has_call k (waiters ++ (c ∷ [])) ≡ true
has_call-snoc_old k c [] h = cc h
has_call-snoc_old k c (w ∷ waiters) h = ground (arith, h, has_call-snoc_old k c waiters)

-- A step of a caller that moves no entry, to a phase that requests what the caller did before.
moved-Listed :
    (s u : State) (c : ℕ) (p : Phase)
    → RequestersListed s
    → u.phase ≡ at_call c p s.phase
    → u.inflight ≡ s.inflight
    → ((d : Bytes) → requesting d p ≡ true → requesting d (s.phase c) ≡ true)
    → RequestersListed u
moved-Listed s u c p ok phases entries keeps k d h =
    let old : requesting d (s.phase k) ≡ true = elim (Bool-cases (k == c)) [
      | inl e ↦
          let same_call : k ≡ c = ==→eq k c e in
          subst (λ j. requesting d (s.phase j) ≡ true) (sym same_call)
            (keeps d (ground (arith, h, phases, e)))
      | inr e ↦ ground (arith, h, phases, e)
    ] in
    let (waiters, there, listed) = ok k d old in (waiters, ap (λ f. f d) entries ∙ there, listed)

-- The entry of a domain that the caller does not request goes.
closed-Listed :
    (s u : State) (d : Bytes)
    → RequestersListed s
    → u.inflight ≡ at_domain d none s.inflight
    → ((k : ℕ) (f : Bytes)
        → requesting f (u.phase k) ≡ true
        → (text_eq f d ≡ false) × (requesting f (s.phase k) ≡ true))
    → RequestersListed u
closed-Listed s u d ok entries others k f h =
    let (other, old) = others k f h in
    let (waiters, there, listed) = ok k f old in
    (waiters, ap (λ g. g f) entries ∙ ground (arith, other, there), listed)

module _ (outcome : Bytes → Option (Option FilterAction)) where
  WorkerStep-Listed :
      (s u : State) → Single s → RequestersListed s → WorkerStep outcome s u → RequestersListed u
  unfolding looked put_decision count_request answer_waiters
  WorkerStep-Listed s _ one ok (take_request d rest w q) = ok
  WorkerStep-Listed s _ one ok (put_step d v w) = ok
  WorkerStep-Listed s _ one ok (count_step d v w) = ok
  WorkerStep-Listed s _ one ok (answer_step d v w) =
      closed-Listed s (answer_waiters d v s) d ok refl (λ k f h. (
        elim (Bool-cases (text_eq f d)) [
          | inl alike ↦ absurd (ground (arith, w, alike, (one.caller_alone k f h).1))
          | inr other ↦ other
        ],
        h,
      ))

  joined-Listed :
      (s : State) (c : ℕ) (d : Bytes) (waiters : List ℕ)
      → RequestersListed s
      → s.inflight d ≡ some waiters
      → RequestersListed (joined c d waiters s)
  unfolding joined
  joined-Listed s c d waiters ok g k f h = elim (requesting-at_call s c (waiting d) k f h) [
    | inl own ↦ cc (own.1)
    | inr (differs, old) ↦
        let (listing, there, listed) = ok k f old in
        elim (Bool-cases (text_eq f d)) [
          | inl alike ↦
              let name : f ≡ d = (text_eq_iff f d).0 alike in
              let entry : s.inflight f ≡ some waiters = ap s.inflight name ∙ g in
              (
                waiters ++ (c ∷ []),
                ground (arith, alike),
                has_call-snoc_old k c waiters (ground (arith, there, entry, listed)),
              )
          | inr other ↦ (listing, ground (arith, other, there), listed)
        ]
  ]

  opened-Listed :
      (s : State) (c : ℕ) (d : Bytes)
      → RequestersListed s
      → s.inflight d ≡ none
      → RequestersListed (opened c d s)
  unfolding opened
  opened-Listed s c d ok fresh k f h = elim (opened_request s c d k f h) [
    | inl (same_call, name) ↦
        (c ∷ [], ground (arith, name, text_eq_self d), ground (arith, same_call))
    | inr old ↦
        let (listing, there, listed) = ok k f old in
        elim (Bool-cases (text_eq f d)) [
          | inl alike ↦
              let name : f ≡ d = (text_eq_iff f d).0 alike in
              let entry : s.inflight f ≡ none = ap s.inflight name ∙ fresh in
              absurd (ground (arith, there, entry))
          | inr other ↦ (listing, ground (arith, other, there), listed)
        ]
  ]

  gave_up-Listed :
      (s : State) (c : ℕ) (d : Bytes)
      → Single s
      → RequestersListed s
      → s.phase c ≡ refused d
      → RequestersListed (gave_up c d s)
  unfolding gave_up
  gave_up-Listed s c d one ok e =
      let mine : requesting d (s.phase c) ≡ true = ground (arith, e, text_eq_self d) in
      closed-Listed s (gave_up c d s) d ok refl (λ k f h.
        elim (requesting-at_call s c (answered d proxy) k f h) [
          | inl own ↦ cc (own.1)
          | inr (differs, old) ↦ (
            elim (Bool-cases (text_eq f d)) [
              | inl alike ↦ absurd (
                  differs (
                    one.callers_alone k c d
                      (subst (λ t. requesting t (s.phase k) ≡ true) ((text_eq_iff f d).0 alike) old)
                      mine))
              | inr other ↦ other
            ],
            old,
          )
        ])

  pub Step-Listed :
      (s u : State) → Single s → RequestersListed s → Step outcome s u → RequestersListed u
  unfolding after_hit enqueued expired fell_back
  Step-Listed s _ one ok (worker_step u w) = WorkerStep-Listed s u one ok w
  Step-Listed s _ one ok (join_step c d waiters e g) = joined-Listed s c d waiters ok g
  Step-Listed s _ one ok (open_step c d e g) = opened-Listed s c d ok g
  Step-Listed s _ one ok (give_up_step c d e) = gave_up-Listed s c d one ok e
  Step-Listed s _ one ok (full_step c d e g) =
      moved-Listed s (moves_to c (refused d) s) c (refused d) ok refl refl
        (λ f h. ground (arith, e, h))
  Step-Listed s _ one ok (call_step c d e) =
      moved-Listed s (moves_to c (asking d) s) c (asking d) ok refl refl (λ f h. cc h)
  Step-Listed s _ one ok (hit_step c d v e g) =
      moved-Listed s (after_hit c d v s) c (answered d (or_default v)) ok refl refl (λ f h. cc h)
  Step-Listed s _ one ok (miss_step c d e g) =
      moved-Listed s (moves_to c (missed d) s) c (missed d) ok refl refl (λ f h. cc h)
  Step-Listed s _ one ok (send_step c d e g) =
      moved-Listed s (enqueued c d s) c (waiting d) ok refl refl (λ f h. cc h)
  Step-Listed s _ one ok (receive_step c d v e g) =
      moved-Listed s (moves_to c (answered d (or_default v)) s) c (answered d (or_default v)) ok
        refl refl (λ f h. cc h)
  Step-Listed s _ one ok (expire_step c d e g) =
      moved-Listed s (expired c d s) c (timed_out d) ok refl refl (λ f h. cc h)
  Step-Listed s _ one ok (fall_back_step c d e) =
      moved-Listed s (fell_back c d s) c (answered d (from_cache (get d s.cache).0)) ok refl refl
        (λ f h. cc h)

  pub spawned-Listed : (cache_capacity : ℕ) → RequestersListed (spawned cache_capacity)
  unfolding spawned
  spawned-Listed cache_capacity = λ c d h. cc h
