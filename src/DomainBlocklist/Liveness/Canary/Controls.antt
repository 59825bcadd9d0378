-- ===== src/DomainBlocklist/Liveness/Canary/Controls.antt =====
-- When the canary passes.
use holy_blocker.Shared.{All, ◌↔◌, ◌++◌, ◌≡◌, List, Bytes, arith, [], ◌∷◌}
use holy_blocker.DomainBlocklist.Liveness.Lookup.{Verdict, alive, dead, unknown}
use holy_blocker.DomainBlocklist.Liveness.Canary.{
  check, mismatches, CanaryConfig, passed, true, Answers, ℕ, canary_failures, report_failures,
  ControlFailure, verdict_eq, canary_check,
}

verdict_eq-alive : (v : Verdict) → (verdict_eq v alive ≡ true) ↔ (v ≡ alive)
verdict_eq-alive alive = ground arith
verdict_eq-alive dead = ground arith
verdict_eq-alive (unknown r) = ground arith

verdict_eq-dead : (v : Verdict) → (verdict_eq v dead ≡ true) ↔ (v ≡ dead)
verdict_eq-dead alive = ground arith
verdict_eq-dead dead = ground arith
verdict_eq-dead (unknown r) = ground arith

module _ (verdict_of : Bytes → Verdict) (expected : Verdict)
    (meets : (v : Verdict) → (verdict_eq v expected ≡ true) ↔ (v ≡ expected)) where
  pub mismatches-nil :
      (domains : List Bytes)
      → (mismatches verdict_of expected domains ≡ [])
        ↔ All (λ domain. verdict_of domain ≡ expected) domains
  unfolding mismatches
  mismatches-nil [] = ground arith
  mismatches-nil (domain ∷ domains) =
      ground (arith, mismatches-nil domains, meets (verdict_of domain))

append-nil_iff : (xs ys : List ControlFailure) → (xs ++ ys ≡ []) ↔ ((xs ≡ []) × (ys ≡ []))
append-nil_iff [] ys = ground arith
append-nil_iff (x ∷ xs) ys = ground arith

report_failures-passed :
    (failures : List ControlFailure) (now : ℕ)
    → (report_failures failures now ≡ passed now) ↔ (failures ≡ [])
unfolding report_failures
report_failures-passed [] now = ground arith
report_failures-passed (f ∷ failures) now = ground arith

-- The canary passes exactly when every control of both lists gets the verdict that is expected.
pub canary_check-passed :
    (resolver : Bytes → Answers) (config : CanaryConfig) (now : ℕ)
    → (canary_check resolver config now ≡ passed now) ↔ (
        All (λ domain. check (resolver domain) ≡ alive) config.alive_controls
        × All (λ domain. check (resolver domain) ≡ dead) config.dead_controls)
unfolding canary_check canary_failures
canary_check-passed resolver config now =
    let verdict_of : Bytes → Verdict = λ domain. check (resolver domain) in
    let living = mismatches verdict_of alive config.alive_controls in
    let gone = mismatches verdict_of dead config.dead_controls in
    let report = report_failures-passed (living ++ gone) now in
    let both = append-nil_iff living gone in
    let l = mismatches-nil verdict_of alive verdict_eq-alive config.alive_controls in
    let g = mismatches-nil verdict_of dead verdict_eq-dead config.dead_controls in
    (
      λ h. let (x, y) = both.0 (report.0 h) in (l.0 x, g.0 y),
      λ h. report.1 (both.1 (l.1 h.0, g.1 h.1)),
    )
