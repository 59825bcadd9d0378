-- ===== src/DomainBlocklist/Sweep/Batch.antt =====
-- What a batch writes into the cache.
use holy_blocker.Shared.{
  text_eq_iff, refl, Option-cases, ap, ◌+◌, text_eq, any, Bool-cases, member, ◌↔◌, ◌≡◌, Bytes,
  arith, inl, inr, some, true, false, [], ◌∷◌,
}
use holy_blocker.DomainBlocklist.Liveness.Lookup.{check_corroborated, Verdict, alive, dead, unknown}
use holy_blocker.DomainBlocklist.Sweep.{
  dead_since, batched, suc, Option, length, Bool, record_results, batch_verdicts, first_dead, ℕ,
  List, entry_after, Resolver,
}
use holy_blocker.DomainBlocklist.Liveness.Cache.{CacheEntry}
use holy_blocker.DomainBlocklist.Backend.{IsMap, CacheBackend}
use holy_blocker.Shared.Listed.{Listed}
use mathlib.Core.Path.{subst}

abbrev pub has_domain : Bytes → List (Bytes × Verdict) → Bool
has_domain d rs = any (λ (r : Bytes × Verdict). text_eq d r.0) rs

pub has_domain-Listed :
    (d : Bytes) (rs : List (Bytes × Verdict))
    → (has_domain d rs ≡ true) ↔ ((v : Verdict) × Listed (d, v) rs)
has_domain-Listed d [] = (λ h. cc, λ h. absurd h.1)
has_domain-Listed d ((x, v) ∷ rs) = (
  λ h. elim (Bool-cases (text_eq d x)) [
    | inl e ↦ (v, inl (ap (λ (t : Bytes). (t, v)) ((text_eq_iff d x).0 e)))
    | inr e ↦ let (w, l) = (has_domain-Listed d rs).0 (ground (arith, e, h)) in (w, inr l)
  ],
  λ h. elim h.1 [
    | inl e ↦ ground (arith, (text_eq_iff d x).1 (ap (λ (r : Bytes × Verdict). r.0) e))
    | inr l ↦ ground (arith, (has_domain-Listed d rs).1 (h.0, l))
  ],
)

module _ (first second : Resolver) (batch : ℕ) where
  pub has_domain-batch_verdicts :
      (d : Bytes) (at : ℕ) (domains : List Bytes)
      → has_domain d (batch_verdicts first second batch at domains) ≡ member d domains
  unfolding batch_verdicts
  has_domain-batch_verdicts d at [] = refl
  has_domain-batch_verdicts d at (x ∷ domains) =
      ground (arith, has_domain-batch_verdicts d (at + 1) domains)

  pub length-batch_verdicts :
      (at : ℕ) (domains : List Bytes)
      → length (batch_verdicts first second batch at domains) ≡ length domains
  unfolding batch_verdicts
  length-batch_verdicts at [] = refl
  length-batch_verdicts at (x ∷ domains) = ap suc (length-batch_verdicts (at + 1) domains)

  -- A verdict of the batch is that of a corroborated check of its domain.
  pub Listed-batch_verdicts :
      (d : Bytes) (v : Verdict) (at : ℕ) (domains : List Bytes)
      → Listed (d, v) (batch_verdicts first second batch at domains)
      → (place : ℕ) × (v
          ≡ check_corroborated (first (batched batch place) d) (second (batched batch place) d))
  unfolding batch_verdicts
  Listed-batch_verdicts d v at [] h = absurd h
  Listed-batch_verdicts d v at (x ∷ domains) (inl e) =
      (at, cc (ap (λ (r : Bytes × Verdict). r.0) e, ap (λ (r : Bytes × Verdict). r.1) e))
  Listed-batch_verdicts d v at (x ∷ domains) (inr l) = Listed-batch_verdicts d v (at + 1) domains l

-- An entry has a date of death exactly when its verdict is dead.
pub IsDated : CacheEntry → Type 0
IsDated e = (e.verdict ≡ dead) ↔ ((t : ℕ) × (e.first_dead_at ≡ some t))

entry_after-IsDated :
    (v : Verdict) (before : Option CacheEntry) (now : ℕ) → IsDated (entry_after v before now)
unfolding IsDated entry_after first_dead
entry_after-IsDated alive before now = (λ h. cc, λ h. cc (h.1))
entry_after-IsDated (unknown r) before now = (λ h. cc, λ h. cc (h.1))
entry_after-IsDated dead before now = elim (Option-cases (dead_since before)) [
  | inl e ↦ (λ h. (now, ground (arith, e)), λ h. refl)
  | inr (t, e) ↦ (λ h. (t, ground (arith, e)), λ h. refl)
]

module _ {C : Type 0} (backend : CacheBackend C) (ok : IsMap backend) (now : ℕ) where
  pub record_results-other :
      (d : Bytes) (rs : List (Bytes × Verdict)) (c : C)
      → has_domain d rs ≡ false
      → ok.view (record_results backend now rs c) d ≡ ok.view c d
  unfolding record_results
  record_results-other d [] c h = refl
  record_results-other d ((x, v) ∷ rs) c h =
      let e = entry_after v (backend.get x c) now in
      ground (arith, h, record_results-other d rs (backend.set x e c), ok.view-set x e c d)

  -- A domain of the results has an entry of this moment, with one of its verdicts.
  pub record_results-Listed :
      (d : Bytes) (rs : List (Bytes × Verdict)) (c : C)
      → has_domain d rs ≡ true
      → (e : CacheEntry) × (ok.view (record_results backend now rs c) d ≡ some e)
        × (e.last_checked ≡ now)
        × Listed (d, e.verdict) rs
  unfolding record_results entry_after
  record_results-Listed d [] c h = cc
  record_results-Listed d ((x, v) ∷ rs) c h =
      let e = entry_after v (backend.get x c) now in
      elim (Bool-cases (has_domain d rs)) [
        | inl later ↦
            let (f, seen, fresh, l) = record_results-Listed d rs (backend.set x e c) later in
            (f, seen, fresh, inr l)
        | inr none_later ↦
            let same : text_eq d x ≡ true = ground (arith, h, none_later) in
            (
              e,
              ground (
                arith,
                record_results-other d rs (backend.set x e c) none_later,
                ok.view-set x e c d,
                same,
              ),
              refl,
              inl (ap (λ (t : Bytes). (t, v)) ((text_eq_iff d x).0 same)),
            )
      ]

  pub AllDated : C → Type 0
  AllDated c = (d : Bytes) (e : CacheEntry) → ok.view c d ≡ some e → IsDated e

  pub record_results-AllDated :
      (rs : List (Bytes × Verdict)) (c : C)
      → AllDated c
      → AllDated (record_results backend now rs c)
  unfolding record_results AllDated
  record_results-AllDated [] c h = h
  record_results-AllDated ((x, v) ∷ rs) c h =
      let e = entry_after v (backend.get x c) now in
      record_results-AllDated rs (backend.set x e c) (λ d f seen. elim (Bool-cases (text_eq d x)) [
        | inl same ↦
            subst IsDated (ground (arith, seen, ok.view-set x e c d, same))
              (entry_after-IsDated v (backend.get x c) now)
        | inr other ↦ h d f (ground (arith, seen, ok.view-set x e c d, other))
      ])
