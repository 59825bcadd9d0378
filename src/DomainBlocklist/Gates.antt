-- ===== src/DomainBlocklist/Gates.antt =====
-- packages/domain-blocklist/src/gates.rs: the gates that need no floating-point number. A failure
-- carries the values that its message prints; a BTreeSet of sources is iterated in the order of the
-- enum.
pub mod License
pub mod Review
mod Runs
use holy_blocker.DomainBlocklist.Types.{
  spdx_matches, same_source, MergedEntry, SourceSnapshot, SourceId, steven_black, hagezi, ut1,
}
use holy_blocker.DomainNormalize.{normalize, key, failed}
use holy_blocker.DomainNormalize.{RuleScope}
use holy_blocker.Shared.{
  member, not, text_eq, length, ◌&&◌, map, ltb, Option, leb, any, if◌then◌else◌, Bool, Bytes, ℕ,
  List, true, false, none, some, [], ◌∷◌,
}

pub data GateResult : Type 0 where
  pass : GateResult
  ambiguous_sources unlicensed_sources : List SourceId → GateResult
  disallowed_snapshots : List SourceSnapshot → GateResult
  too_large : ℕ → ℕ → GateResult

pub size_gate : ℕ → ℕ → GateResult
size_gate artifact_bytes ceiling =
    if ltb ceiling artifact_bytes then too_large artifact_bytes ceiling else pass

-- `set.contains(&source)`
abbrev pub has_source : SourceId → List SourceId → Bool
has_source s = any (same_source s)

-- The first loop: the sources that `insert` finds in the set already.
duplicated : List SourceId → List SourceSnapshot → List SourceId
duplicated seen [] = []
duplicated seen (snap ∷ snapshots) =
    let again = duplicated seen snapshots in
    let first = duplicated (snap.source ∷ seen) snapshots in
    if has_source snap.source seen then snap.source ∷ again else first

abbrev pub sources_of : List SourceSnapshot → List SourceId
sources_of = map (λ (snap : SourceSnapshot). snap.source)

-- Whether the source contributes to an entry.
abbrev pub contributes : List MergedEntry → SourceId → Bool
contributes merged s = any (λ (e : MergedEntry). has_source s e.sources) merged

-- The sources, in their order, that contribute without a snapshot.
missing_among : List SourceId → List MergedEntry → List SourceSnapshot → List SourceId
missing_among [] merged snapshots = []
missing_among (s ∷ rest) merged snapshots =
    let others = missing_among rest merged snapshots in
    if contributes merged s && not (has_source s (sources_of snapshots)) then s ∷ others else others

abbrev pub all_sources : List SourceId
all_sources = steven_black ∷ hagezi ∷ ut1 ∷ []

abbrev pub is_allowed : List (List ℕ) → SourceSnapshot → Bool
is_allowed allowlist snap = any (λ allowed. spdx_matches allowed snap.license) allowlist

disallowed : List (List ℕ) → List SourceSnapshot → List SourceSnapshot
disallowed allowlist [] = []
disallowed allowlist (snap ∷ snapshots) =
    let rest = disallowed allowlist snapshots in
    if is_allowed allowlist snap then rest else snap ∷ rest

abbrev on_empty {ℓ} : {A : Type ℓ} → List A → (List A → GateResult) → GateResult → GateResult
on_empty [] fail next = next
on_empty (x ∷ xs) fail next = fail (x ∷ xs)

pub license_gate : List MergedEntry → List SourceSnapshot → List (List ℕ) → GateResult
license_gate merged snapshots allowlist = on_empty (duplicated [] snapshots) ambiguous_sources (
    on_empty (missing_among all_sources merged snapshots) unlicensed_sources
      (on_empty (disallowed allowlist snapshots) disallowed_snapshots pass))

pub record FalsePositiveHit : Type 0 where
  pub domain : Bytes
  pub scope : RuleScope
  pub sources : List SourceId

-- `FalsePositiveHit::is_corroborated`
pub is_corroborated : FalsePositiveHit → Bool
is_corroborated hit = leb 2 (length hit.sources)

-- `by_domain.get(domain)`, of two entries for one domain the later.
pub entry_for : Bytes → List MergedEntry → Option MergedEntry
entry_for domain [] = none
entry_for domain (e ∷ merged) = elim (entry_for domain merged) [
  | some later ↦ some later
  | none ↦ if text_eq e.domain domain then some e else none
]

hits_for : List MergedEntry → List Bytes → List FalsePositiveHit
hits_for merged [] = []
hits_for merged (domain ∷ domains) =
    let rest = hits_for merged domains in
    elim (entry_for domain merged) [
      | none ↦ rest
      | some e ↦ record { domain = domain; scope = e.scope; sources = e.sources } ∷ rest
    ]

keep_open : List Bytes → List FalsePositiveHit → List FalsePositiveHit
keep_open excluded [] = []
keep_open excluded (hit ∷ hits) =
    let rest = keep_open excluded hits in
    if not (is_corroborated hit) && not (member hit.domain excluded) then hit ∷ rest else rest

module _ (to_ascii : Bytes → Option Bytes) where
  -- `filter_map(|raw| normalize(raw).ok())`
  pub normalized_all : List Bytes → List Bytes
  normalized_all [] = []
  normalized_all (raw ∷ raws) =
      let rest = normalized_all raws in
      elim (normalize to_ascii raw) [ key k ↦ k ∷ rest | failed e ↦ rest ]

  pub false_positive_hits : List MergedEntry → List Bytes → List FalsePositiveHit
  false_positive_hits merged control_set = hits_for merged (normalized_all control_set)

  pub review_queue : List MergedEntry → List Bytes → List Bytes → List FalsePositiveHit
  review_queue merged control_set exclusions =
      keep_open (normalized_all exclusions) (false_positive_hits merged control_set)
