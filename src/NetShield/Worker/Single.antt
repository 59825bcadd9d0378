-- ===== src/NetShield/Worker/Single.antt =====
-- One request for each domain in flight: who holds the request for a domain.
use holy_blocker.NetShield.Worker.{
  some, text_eq, Bool, ℕ, Bytes, Option, State, Phase, Working, sending, refused, receiving,
  looked_up, stored, counted, at_call,
}
use holy_blocker.NetShield.Lru.Keys.{Distinct}
use holy_blocker.Shared.{
  inr, none, ==→eq, ◌∙◌, inl, arith, ◌==◌, sym, ◌⊎◌, false, Bool-cases, true, member, ◌≡◌,
}
use mathlib.Core.Path.{subst}

abbrev pub present {ℓ} : {A : Type ℓ} → Option A → Bool
present none = false
present (some a) = true

abbrev pub handles : Bytes → Working → Bool
handles d receiving = false
handles d (looked_up k v) = text_eq d k
handles d (stored k v) = text_eq d k
handles d (counted k v) = text_eq d k

-- Whether a caller is about to send the request, or to withdraw it.
abbrev pub requesting : Bytes → Phase → Bool
requesting d (sending k) = text_eq d k
requesting d (refused k) = text_eq d k
requesting d _ = false

abbrev pub IsOwned : State → Bytes → Type 0
IsOwned s d =
    (member d s.queue ≡ true)
    ⊎ ((handles d s.working ≡ true) ⊎ ((c : ℕ) × (requesting d (s.phase c) ≡ true)))

-- Each domain with an entry in flight has a request, in the queue, at the worker or with one caller,
-- and no domain has two.
pub record Single (s : State) : Type 0 where
  pub distinct : Distinct s.queue
  pub worker_alone : (d : Bytes) → handles d s.working ≡ true → member d s.queue ≡ false
  pub caller_alone :
      (c : ℕ) (d : Bytes)
      → requesting d (s.phase c) ≡ true
      → (member d s.queue ≡ false) × (handles d s.working ≡ false)
  pub callers_alone :
      (c k : ℕ) (d : Bytes)
      → requesting d (s.phase c) ≡ true
      → requesting d (s.phase k) ≡ true
      → c ≡ k
  pub in_flight : (d : Bytes) → IsOwned s d → present (s.inflight d) ≡ true
  pub owned : (d : Bytes) → present (s.inflight d) ≡ true → IsOwned s d

-- A step that moves no request.
pub quiet-Single :
    (s u : State)
    → Single s
    → u.queue ≡ s.queue
    → ((d : Bytes) → handles d u.working ≡ handles d s.working)
    → ((c : ℕ) (d : Bytes) → requesting d (u.phase c) ≡ requesting d (s.phase c))
    → ((d : Bytes) → present (u.inflight d) ≡ present (s.inflight d))
    → Single u
quiet-Single s u ok queues works calls opens = record {
  distinct = subst Distinct (sym queues) ok.distinct;
  worker_alone = λ d h. ground (arith, queues, ok.worker_alone d, works d, h);
  caller_alone = λ c d h. ground (arith, queues, ok.caller_alone c d, works d, calls c d, h);
  callers_alone = λ c k d h j.
      ok.callers_alone c k d (ground (arith, calls c d, h)) (ground (arith, calls k d, j));
  in_flight = λ d h.
      opens d
      ∙ ok.in_flight d (elim h [
        | inl q ↦ inl (ground (arith, q, queues))
        | inr (inl w) ↦ inr (inl (ground (arith, w, works d)))
        | inr (inr (c, r)) ↦ inr (inr (c, ground (arith, r, calls c d)))
      ]);
  owned = λ d h. elim (ok.owned d (ground (arith, h, opens d))) [
    | inl q ↦ inl (ground (arith, q, queues))
    | inr (inl w) ↦ inr (inl (ground (arith, w, works d)))
    | inr (inr (c, r)) ↦ inr (inr (c, ground (arith, r, calls c d)))
  ];
}

-- A caller that moves on without its request changing.
pub calls_same :
    (s : State) (c : ℕ) (p q : Phase)
    → s.phase c ≡ p
    → ((d : Bytes) → requesting d q ≡ requesting d p)
    → (k : ℕ) (d : Bytes) → requesting d (at_call c q s.phase k) ≡ requesting d (s.phase k)
calls_same s c p q e h k d = elim (Bool-cases (k == c)) [
  | inl here_too ↦ ground (arith, here_too, e, h d, ==→eq k c here_too)
  | inr other ↦ ground (arith, other)
]
