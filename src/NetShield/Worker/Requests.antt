-- ===== src/NetShield/Worker/Requests.antt =====
-- The steps of a caller that place, move or withdraw a request.
use holy_blocker.NetShield.Worker.{
  [], some, at_domain, proxy, answered, waiting, gave_up, enqueued, missed, opened, text_eq, ℕ,
  Bytes, State, Phase, sending, refused, at_call,
}
use holy_blocker.NetShield.Lru.Keys.{member-last, Distinct-last}
use holy_blocker.Shared.{
  ◌∷◌, text_eq_self, text_eq_iff, ◌≢◌, inr, none, ==→eq, ◌∙◌, inl, arith, ◌==◌, sym, ◌⊎◌, false,
  Bool-cases, true, member, ◌≡◌,
}
use mathlib.Core.Path.{subst}
use holy_blocker.NetShield.Worker.Single.{present, Single, IsOwned, requesting, handles}

-- Where a request stands after the caller c has moved to the phase q.
pub requesting-at_call :
    (s : State) (c : ℕ) (q : Phase) (k : ℕ) (d : Bytes)
    → requesting d (at_call c q s.phase k) ≡ true
    → ((k ≡ c) × (requesting d q ≡ true)) ⊎ ((k ≢ c) × (requesting d (s.phase k) ≡ true))
requesting-at_call s c q k d h = elim (Bool-cases (k == c)) [
  | inl e ↦ inl (==→eq k c e, ground (arith, h, e))
  | inr e ↦ inr (ground (arith, e), ground (arith, h, e))
]

kept_at_call :
    (s : State) (c : ℕ) (q : Phase) (k : ℕ) (d : Bytes)
    → k ≢ c
    → requesting d (s.phase k) ≡ true
    → requesting d (at_call c q s.phase k) ≡ true
kept_at_call s c q k d differs r = elim (Bool-cases (k == c)) [
  | inl same_call ↦ absurd (differs (==→eq k c same_call))
  | inr other ↦ ground (arith, other, r)
]

-- A domain that is not in flight has no request.
unowned : (s : State) (d : Bytes) → Single s → s.inflight d ≡ none → IsOwned s d → ⊥
unowned s d ok fresh h = ground (arith, ok.in_flight d h, fresh)

-- The requests behind the opening of an entry: the new one, and those from before.
pub opened_request :
    (s : State) (c : ℕ) (d : Bytes) (k : ℕ) (f : Bytes)
    → requesting f (at_call c (sending d) s.phase k) ≡ true
    → ((k ≡ c) × (f ≡ d)) ⊎ (requesting f (s.phase k) ≡ true)
opened_request s c d k f h = elim (requesting-at_call s c (sending d) k f h) [
  | inl own ↦ inl (own.0, (text_eq_iff f d).0 own.1)
  | inr old ↦ inr old.1
]

opened_callers_alone :
    (s : State) (c : ℕ) (d : Bytes)
    → Single s
    → s.inflight d ≡ none
    → (k j : ℕ) (f : Bytes) → requesting f (at_call c (sending d) s.phase k) ≡ true
    → requesting f (at_call c (sending d) s.phase j) ≡ true
    → k ≡ j
opened_callers_alone s c d ok fresh k j f h g =
    let never : (i : ℕ) → f ≡ d → requesting f (s.phase i) ≡ true → k ≡ j = λ i name r.
      absurd (
        unowned s d ok fresh
          (inr (inr (i, subst (λ t. requesting t (s.phase i) ≡ true) name r)))) in
    elim (opened_request s c d k f h) [
      | inl own ↦ elim (opened_request s c d j f g) [
        | inl own' ↦ own.0 ∙ sym own'.0
        | inr old' ↦ never j own.1 old'
      ]
      | inr old ↦ elim (opened_request s c d j f g) [
        | inl own' ↦ never k own'.1 old
        | inr old' ↦ ok.callers_alone k j f old old'
      ]
    ]

opened_in_flight :
    (s : State) (c : ℕ) (d : Bytes)
    → Single s
    → (f : Bytes) → IsOwned (opened c d s) f
    → present (at_domain d (some (c ∷ [])) s.inflight f) ≡ true
unfolding opened
opened_in_flight s c d ok f h = elim (Bool-cases (text_eq f d)) [
  | inl here_too ↦ ground (arith, here_too)
  | inr other ↦
      let before_it : IsOwned s f = elim h [
        | inl q ↦ inl q
        | inr (inl w) ↦ inr (inl w)
        | inr (inr (k, r)) ↦ elim (opened_request s c d k f r) [
          | inl own ↦ absurd (ground (arith, other, text_eq_iff f d, own.1))
          | inr old ↦ inr (inr (k, old))
        ]
      ] in
      ground (arith, other, ok.in_flight f before_it)
]

opened-IsOwned :
    (s : State) (c : ℕ) (d : Bytes)
    → Single s
    → s.phase c ≡ missed d
    → (f : Bytes) → present (at_domain d (some (c ∷ [])) s.inflight f) ≡ true
    → IsOwned (opened c d s) f
unfolding opened
opened-IsOwned s c d ok e f h = elim (Bool-cases (text_eq f d)) [
  | inl here_too ↦ inr (inr (c, ground (arith, here_too)))
  | inr other ↦ elim (ok.owned f (ground (arith, h, other))) [
    | inl q ↦ inl q
    | inr (inl w) ↦ inr (inl w)
    | inr (inr (k, r)) ↦
        inr (
          inr
            (k, kept_at_call s c (sending d) k f (λ same_call. ground (arith, same_call, e, r)) r))
  ]
]

pub opened-Single :
    (s : State) (c : ℕ) (d : Bytes)
    → Single s
    → s.phase c ≡ missed d
    → s.inflight d ≡ none
    → Single (opened c d s)
unfolding opened
opened-Single s c d ok e fresh =
    let idle_queue : member d s.queue ≡ false = elim (Bool-cases (member d s.queue)) [
      | inl q ↦ absurd (unowned s d ok fresh (inl q))
      | inr q ↦ q
    ] in
    let idle_worker : handles d s.working ≡ false = elim (Bool-cases (handles d s.working)) [
      | inl q ↦ absurd (unowned s d ok fresh (inr (inl q)))
      | inr q ↦ q
    ] in
    record {
      distinct = ok.distinct;
      worker_alone = ok.worker_alone;
      caller_alone = λ k f h. elim (opened_request s c d k f h) [
        | inl own ↦ (ground (arith, own.1, idle_queue), ground (arith, own.1, idle_worker))
        | inr old ↦ ok.caller_alone k f old
      ];
      callers_alone = opened_callers_alone s c d ok fresh;
      in_flight = opened_in_flight s c d ok;
      owned = opened-IsOwned s c d ok e;
    }

pub enqueued-Single :
    (s : State) (c : ℕ) (d : Bytes) → Single s → s.phase c ≡ sending d → Single (enqueued c d s)
unfolding enqueued
enqueued-Single s c d ok e =
    let mine : requesting d (s.phase c) ≡ true = ground (arith, e, text_eq_self d) in
    let (no_queue, no_worker) = ok.caller_alone c d mine in
    let only : (k : ℕ) (f : Bytes)
        → requesting f (at_call c (waiting d) s.phase k) ≡ true
        → (k ≢ c) × (requesting f (s.phase k) ≡ true) =
      λ k f h. elim (requesting-at_call s c (waiting d) k f h) [
        | inl own ↦ cc (own.1)
        | inr old ↦ old
      ] in
    record {
      distinct = Distinct-last d s.queue ok.distinct no_queue;
      worker_alone = λ f h.
          ground
            (arith, member-last f d s.queue, ok.worker_alone f h, text_eq_iff f d, h, no_worker);
      caller_alone = λ k f h.
          let (differs, r) = only k f h in
          let (q, w) = ok.caller_alone k f r in
          let unlike : text_eq f d ≡ false = elim (Bool-cases (text_eq f d)) [
            | inl alike ↦ absurd (
                differs (
                  ok.callers_alone k c d
                    (subst (λ t. requesting t (s.phase k) ≡ true) ((text_eq_iff f d).0 alike) r)
                    mine))
            | inr other ↦ other
          ] in
          (ground (arith, member-last f d s.queue, q, unlike), w);
      callers_alone = λ k j f h g. ok.callers_alone k j f (only k f h).1 (only j f g).1;
      in_flight = λ f h. elim h [
        | inl q ↦ elim (Bool-cases (text_eq f d)) [
          | inl alike ↦ ok.in_flight f (
              inr (
                inr (
                  c,
                  subst (λ t. requesting t (s.phase c) ≡ true) (sym ((text_eq_iff f d).0 alike))
                      mine,
                )))
          | inr other ↦ ok.in_flight f (inl (ground (arith, q, member-last f d s.queue, other)))
        ]
        | inr (inl w) ↦ ok.in_flight f (inr (inl w))
        | inr (inr (k, r)) ↦ ok.in_flight f (inr (inr (k, (only k f r).1)))
      ];
      owned = λ f h. elim (ok.owned f h) [
        | inl q ↦ inl (ground (arith, q, member-last f d s.queue))
        | inr (inl w) ↦ inr (inl w)
        | inr (inr (k, r)) ↦ elim (Bool-cases (k == c)) [
          | inl same_call ↦ inl (ground (arith, member-last f d s.queue, r, e, ==→eq k c same_call))
          | inr other ↦ inr (inr (k, ground (arith, other, r)))
        ]
      ];
    }

pub gave_up-Single :
    (s : State) (c : ℕ) (d : Bytes) → Single s → s.phase c ≡ refused d → Single (gave_up c d s)
unfolding gave_up
gave_up-Single s c d ok e =
    let mine : requesting d (s.phase c) ≡ true = ground (arith, e, text_eq_self d) in
    let (no_queue, no_worker) = ok.caller_alone c d mine in
    let only : (k : ℕ) (f : Bytes)
        → requesting f (at_call c (answered d proxy) s.phase k) ≡ true
        → (k ≢ c) × (requesting f (s.phase k) ≡ true) =
      λ k f h. elim (requesting-at_call s c (answered d proxy) k f h) [
        | inl own ↦ cc (own.1)
        | inr old ↦ old
      ] in
    let others : (f : Bytes) → IsOwned (gave_up c d s) f → (text_eq f d ≡ false) × IsOwned s f =
      λ f h. elim (Bool-cases (text_eq f d)) [
        | inl alike ↦
            let name = (text_eq_iff f d).0 alike in
            elim h [
              | inl q ↦ ground (arith, q, name, no_queue)
              | inr (inl w) ↦ ground (arith, w, name, no_worker)
              | inr (inr (k, r)) ↦
                  let (differs, r') = only k f r in
                  absurd (
                    differs (
                      ok.callers_alone k c d (subst (λ t. requesting t (s.phase k) ≡ true) name r')
                        mine))
            ]
        | inr other ↦ (
          other,
          elim h [
            | inl q ↦ inl q
            | inr (inl w) ↦ inr (inl w)
            | inr (inr (k, r)) ↦ inr (inr (k, (only k f r).1))
          ],
        )
      ] in
    record {
      distinct = ok.distinct;
      worker_alone = ok.worker_alone;
      caller_alone = λ k f h. ok.caller_alone k f (only k f h).1;
      callers_alone = λ k j f h g. ok.callers_alone k j f (only k f h).1 (only j f g).1;
      in_flight = λ f h. let (other, o) = others f h in ground (arith, other, ok.in_flight f o);
      owned = λ f h. elim (Bool-cases (text_eq f d)) [
        | inl alike ↦ absurd (ground (arith, alike, h))
        | inr other ↦ elim (ok.owned f (ground (arith, other, h))) [
          | inl q ↦ inl q
          | inr (inl w) ↦ inr (inl w)
          | inr (inr (k, r)) ↦ inr (
              inr (
                k,
                kept_at_call s c (answered d proxy) k f
                    (λ same_call. ground (arith, same_call, e, r, other)) r,
              ))
        ]
      ];
    }
