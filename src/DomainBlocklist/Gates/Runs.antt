-- ===== src/DomainBlocklist/Gates/Runs.antt =====
-- One source with a license of the allowlist in another spelling.
use holy_blocker.Shared.Listed.{Listed}
use holy_blocker.DomainBlocklist.Types.{SourceId, ut1, adult, MergedEntry, SourceSnapshot}
use holy_blocker.DomainBlocklist.Gates.{
  false, entry_for, normalized_all, member, some, review_queue, Option, FalsePositiveHit, Bytes,
  is_allowed, sources_of, has_source, true, contributes, ℕ, license_gate, List, pass,
}
use holy_blocker.DomainNormalize.{apex}
use holy_blocker.Shared.{◌<◌, All, ◌↔◌, ◌≡◌, [], ◌∷◌, codes}
use holy_blocker.DomainBlocklist.Gates.License.{license_gate-pass, DistinctSources}
use holy_blocker.DomainBlocklist.Gates.Review.{
  review_queue-Listed, hit_of, review_queue-Listed, hit_of,
}

abbrev merged : List MergedEntry
merged =
    record { domain = codes "a.org"; scope = apex; sources = ut1 ∷ []; categories = adult ∷ [] }
    ∷ []

abbrev snapshots : List SourceSnapshot
snapshots =
    record { source = ut1; revision = codes "r1"; license = codes " cc-by-sa-4.0"; fetched_at = 9 }
    ∷ []

abbrev allowlist : List (List ℕ)
allowlist = codes "MIT" ∷ codes "CC-BY-SA-4.0" ∷ []

license_gate-pass_example : (license_gate merged snapshots allowlist ≡ pass) ↔ (
    DistinctSources snapshots
    × ((s : SourceId) → contributes merged s ≡ true → has_source s (sources_of snapshots) ≡ true)
    × All (λ snap. is_allowed allowlist snap ≡ true) snapshots)
license_gate-pass_example = license_gate-pass merged snapshots allowlist

abbrev as_is : Bytes → Option Bytes
as_is text = some text

abbrev hit : FalsePositiveHit
hit = record { domain = codes "a.org"; scope = apex; sources = ut1 ∷ [] }

review_queue-Listed_example : Listed hit (review_queue as_is merged (codes "a.org." ∷ []) []) ↔ (
    ((member (codes "a.org") (normalized_all as_is (codes "a.org." ∷ [])) ≡ true)
      × (e : MergedEntry) × (entry_for (codes "a.org") merged ≡ some e)
      × (hit ≡ hit_of (codes "a.org") e))
    × (1 < 2)
    × (member (codes "a.org") (normalized_all as_is []) ≡ false))
review_queue-Listed_example = review_queue-Listed as_is merged (codes "a.org." ∷ []) [] hit
