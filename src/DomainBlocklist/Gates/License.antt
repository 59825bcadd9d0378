-- ===== src/DomainBlocklist/Gates/License.antt =====
-- When the license gate passes.
use holy_blocker.DomainBlocklist.Types.{SourceId, steven_black, hagezi, ut1}
use holy_blocker.DomainBlocklist.Gates.{
  ambiguous_sources, on_empty, unlicensed_sources, disallowed_snapshots, GateResult, sources_of,
  true, is_allowed, false, contributes, has_source, all_sources, MergedEntry, ℕ, SourceSnapshot,
  license_gate, missing_among, disallowed, duplicated, List, pass,
}
use holy_blocker.Shared.{◌≢◌, refl, ◌≡◌, ◌↔◌, All, arith, [], ◌∷◌}

abbrev NotIn : List SourceId → SourceSnapshot → Type 0
NotIn seen snap = has_source snap.source seen ≡ false

-- No two snapshots of one source.
unfoldable pub DistinctSources : List SourceSnapshot → Type 0
DistinctSources [] = Unit
DistinctSources (snap ∷ snapshots) =
    All (NotIn (snap.source ∷ [])) snapshots × DistinctSources snapshots

All-NotIn-cons :
    (s : SourceId) (seen : List SourceId) (snapshots : List SourceSnapshot)
    → All (NotIn (s ∷ seen)) snapshots
      ↔ (All (NotIn (s ∷ [])) snapshots × All (NotIn seen) snapshots)
All-NotIn-cons s seen [] = ground arith
All-NotIn-cons s seen (snap ∷ snapshots) = ground (arith, All-NotIn-cons s seen snapshots)

duplicated-nil :
    (seen : List SourceId) (snapshots : List SourceSnapshot)
    → (duplicated seen snapshots ≡ []) ↔ (All (NotIn seen) snapshots × DistinctSources snapshots)
unfolding duplicated DistinctSources
duplicated-nil seen [] = ground arith
duplicated-nil seen (snap ∷ snapshots) = ground (
  arith,
  duplicated-nil (snap.source ∷ seen) snapshots,
  All-NotIn-cons snap.source seen snapshots,
)

disallowed-nil :
    (allowlist : List (List ℕ)) (snapshots : List SourceSnapshot)
    → (disallowed allowlist snapshots ≡ [])
      ↔ All (λ snap. is_allowed allowlist snap ≡ true) snapshots
unfolding disallowed
disallowed-nil allowlist [] = ground arith
disallowed-nil allowlist (snap ∷ snapshots) = ground (arith, disallowed-nil allowlist snapshots)

-- A source that contributes has a snapshot.
abbrev Covered : List MergedEntry → List SourceSnapshot → SourceId → Type 0
Covered merged snapshots s =
    contributes merged s ≡ true → has_source s (sources_of snapshots) ≡ true

missing_among-nil :
    (ss : List SourceId) (merged : List MergedEntry) (snapshots : List SourceSnapshot)
    → (missing_among ss merged snapshots ≡ []) ↔ All (Covered merged snapshots) ss
unfolding missing_among
missing_among-nil [] merged snapshots = ground arith
missing_among-nil (s ∷ ss) merged snapshots = ground (arith, missing_among-nil ss merged snapshots)

every_source : (P : SourceId → Type 0) → All P all_sources → (s : SourceId) → P s
every_source P h steven_black = h.0
every_source P h hagezi = h.1.0
every_source P h ut1 = h.1.1.0

on_empty-pass {ℓ} :
    {A : Type ℓ} (xs : List A) (fail : List A → GateResult) (next : GateResult)
    → ((ys : List A) → fail ys ≢ pass)
    → (on_empty xs fail next ≡ pass) ↔ ((xs ≡ []) × (next ≡ pass))
on_empty-pass [] fail next h = (λ e. (refl, e), λ p. p.1)
on_empty-pass (x ∷ xs) fail next h = (λ e. absurd (h (x ∷ xs) e), λ p. cc (p.0))

module _ (merged : List MergedEntry) (snapshots : List SourceSnapshot)
    (allowlist : List (List ℕ)) where
  license_gate-nil : (license_gate merged snapshots allowlist ≡ pass) ↔ (
      (duplicated [] snapshots ≡ [])
      × (missing_among all_sources merged snapshots ≡ [])
      × (disallowed allowlist snapshots ≡ []))
  unfolding license_gate
  license_gate-nil =
      let last =
        on_empty-pass (disallowed allowlist snapshots) disallowed_snapshots pass (λ ys e. cc) in
      let middle =
        on_empty-pass (missing_among all_sources merged snapshots) unlicensed_sources
          (on_empty (disallowed allowlist snapshots) disallowed_snapshots pass) (λ ys e. cc) in
      let outer =
        on_empty-pass (duplicated [] snapshots) ambiguous_sources
          (on_empty (missing_among all_sources merged snapshots) unlicensed_sources
            (on_empty (disallowed allowlist snapshots) disallowed_snapshots pass))
          (λ ys e. cc) in
      (
        λ h. let (a, rest) = outer.0 h in let (b, c) = middle.0 rest in (a, b, (last.0 c).0),
        λ h. outer.1 (h.0, middle.1 (h.1, last.1 (h.2, refl))),
      )

none_seen : (snapshots : List SourceSnapshot) → All (NotIn []) snapshots
none_seen [] = tt
none_seen (snap ∷ snapshots) = (refl, none_seen snapshots)

-- The license gate passes exactly when no source has two snapshots, every source that contributes to
-- an entry has a snapshot, and the license of every snapshot matches one of the allowlist.
pub license_gate-pass :
    (merged : List MergedEntry) (snapshots : List SourceSnapshot) (allowlist : List (List ℕ))
    → (license_gate merged snapshots allowlist ≡ pass) ↔ (
        DistinctSources snapshots
        × ((s : SourceId)
            → contributes merged s ≡ true
            → has_source s (sources_of snapshots) ≡ true)
        × All (λ snap. is_allowed allowlist snap ≡ true) snapshots)
license_gate-pass merged snapshots allowlist =
    let parts = license_gate-nil merged snapshots allowlist in
    let once = duplicated-nil [] snapshots in
    let covered = missing_among-nil all_sources merged snapshots in
    let fine = disallowed-nil allowlist snapshots in
    (
      λ h.
          let (a, b, c) = parts.0 h in
          ((once.0 a).1, every_source (Covered merged snapshots) (covered.0 b), fine.0 c),
      λ h. parts.1 (
        once.1 (none_seen snapshots, h.0),
        covered.1 (h.1 steven_black, (h.1 hagezi, (h.1 ut1, tt))),
        fine.1 h.2,
      ),
    )
