-- ===== src/NetShield/Worker/Right.antt =====
-- What the state holds is right: every decision in it is that of the artifact for its domain.
use holy_blocker.NetShield.Worker.{
  proxy, ℕ, List, some, FilterAction, none, Bytes, Option, State, Phase, Working, idle, asking,
  missed, sending, refused, waiting, timed_out, answered, sent, receiving, looked_up, stored,
  counted, decision, at_call, has_call, or_default,
}
use holy_blocker.NetShield.Lru.Items.{AllItems}
use holy_blocker.Shared.{inr, arith, ==→eq, inl, ◌==◌, Bool-cases, sym, true, ◌⊎◌, ◌≡◌}
use mathlib.Core.Path.{subst}

-- The domain that a call asks for.
abbrev pub domain_of : Phase → Option Bytes
domain_of idle = none
domain_of (asking d) = some d
domain_of (missed d) = some d
domain_of (sending d) = some d
domain_of (refused d) = some d
domain_of (waiting d) = some d
domain_of (timed_out d) = some d
domain_of (answered d a) = some d

module _ (outcome : Bytes → Option (Option FilterAction)) where
  abbrev pub Decided : Bytes → Option FilterAction → Type 0
  Decided d v = v ≡ decision outcome d

  abbrev pub WorkerRight : Working → Type 0
  WorkerRight receiving = Unit
  WorkerRight (looked_up d v) = Decided d v
  WorkerRight (stored d v) = Decided d v
  WorkerRight (counted d v) = Decided d v

  abbrev pub RightAnswer : Bytes → FilterAction → Type 0
  RightAnswer d a = (a ≡ or_default (decision outcome d)) ⊎ (a ≡ proxy)

  abbrev pub PhaseRight : Phase → Type 0
  PhaseRight (answered d a) = RightAnswer d a
  PhaseRight _ = Unit

  pub record Sound (s : State) : Type 0 where
    pub cache_right : AllItems Decided s.cache.map
    pub worker_right : WorkerRight s.working
    pub listed_right :
        (d : Bytes) (waiters : List ℕ) (c : ℕ)
        → s.inflight d ≡ some waiters
        → has_call c waiters ≡ true
        → domain_of (s.phase c) ≡ some d
    pub mail_right :
        (c : ℕ) (v : Option FilterAction)
        → s.mail c ≡ sent v
        → (d : Bytes) × (domain_of (s.phase c) ≡ some d) × Decided d v
    pub answers_right : (c : ℕ) → PhaseRight (s.phase c)

  -- A caller's step: it moves on with its domain, and is listed nowhere but there.
  pub move-Sound :
      (s u : State) (c : ℕ) (p : Phase)
      → Sound s
      → u.phase ≡ at_call c p s.phase
      → u.mail ≡ s.mail
      → u.working ≡ s.working
      → AllItems Decided u.cache.map
      → ((d : Bytes) → domain_of (s.phase c) ≡ some d → domain_of p ≡ some d)
      → ((d : Bytes) (waiters : List ℕ) (k : ℕ)
          → u.inflight d ≡ some waiters
          → has_call k waiters ≡ true
          → ((k ≡ c) × (domain_of p ≡ some d)) ⊎ (domain_of (s.phase k) ≡ some d))
      → PhaseRight p
      → Sound u
  move-Sound s u c p ok phases mails works cached keeps listed right = record {
    cache_right = cached;
    worker_right = subst WorkerRight (sym works) ok.worker_right;
    listed_right = λ d waiters k e h. elim (listed d waiters k e h) [
      | inl own ↦ moved k d (inl own)
      | inr old ↦ moved k d (inr old)
    ];
    mail_right = λ k v e.
        let (d, asks, same_value) = ok.mail_right k v (cc (e, mails)) in
        (d, moved k d (inr asks), same_value);
    answers_right = λ k. subst (λ f. PhaseRight (f k)) (sym phases) (answers k);
  }
    where
      moved :
          (k : ℕ) (d : Bytes)
          → ((k ≡ c) × (domain_of p ≡ some d)) ⊎ (domain_of (s.phase k) ≡ some d)
          → domain_of (u.phase k) ≡ some d
      moved k d h =
          subst (λ f. domain_of (f k) ≡ some d) (sym phases)
            (elim (Bool-cases (k == c)) [
              | inl e ↦
                  let same_call = ==→eq k c e in
                  elim h [
                    | inl own ↦ ground (arith, e, own.1)
                    | inr old ↦ ground (
                      arith,
                      e,
                      keeps d (subst (λ j. domain_of (s.phase j) ≡ some d) same_call old),
                    )
                  ]
              | inr e ↦ elim h [
                | inl own ↦ absurd (ground (arith, e, own.0))
                | inr old ↦ ground (arith, e, old)
              ]
            ])

      answers : (k : ℕ) → PhaseRight (at_call c p s.phase k)
      answers k = elim (Bool-cases (k == c)) [
        | inl e ↦ rw e right
        | inr e ↦ rw e (ok.answers_right k)
      ]
