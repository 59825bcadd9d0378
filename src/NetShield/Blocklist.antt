-- ===== src/NetShield/Blocklist.antt =====
-- packages/net-shield/src/blocklist.rs: the lookup in the blocklist artifact, the allowlist and the
-- precedence of the rule sets; reverse_key of packages/domain-blocklist/src/fst_build.rs. The map of
-- the `fst` crate is a function from keys to indices.
pub mod Boundary
pub mod Allowed
mod Runs
use holy_blocker.Shared.Texts.{split_dots, join_dots}
use holy_blocker.DomainNormalize.{RuleScope, apex, exact_host, normalize, key, failed}
use holy_blocker.NetShield.Keyword.{keyword_matches}
use holy_blocker.NetShield.Radix.{FilterAction, block, allow, proxy, TrieNode, rule_for}
use holy_blocker.Shared.{
  take, [], ◌&&◌, length, true, get_elem?, if◌then◌else◌, ◌||◌, ◌==◌, none, some, ◌+◌, member,
  false, ◌∷◌, reverse, Option, List, Bool, ℕ, Bytes,
}

-- An artifact; of a provenance entry only the scope is read.
pub record BlocklistArtifact : Type 0 where
  pub map : Bytes → Option ℕ
  pub provenance : List RuleScope
  pub version : ℕ

-- `domain.split('.')`, reversed and joined.
pub reverse_key : Bytes → Bytes
reverse_key domain = join_dots (reverse (split_dots domain))

-- The positions of the dots from position `i` on, and the end.
boundaries_from : ℕ → Bytes → List ℕ
boundaries_from i [] = i ∷ []
boundaries_from i (b ∷ bytes) =
    let rest = boundaries_from (i + 1) bytes in if b == b'.' then i ∷ rest else rest

-- The scope of the rule that is stored for exactly this key.
unfoldable pub scope_at : BlocklistArtifact → Bytes → Option RuleScope
scope_at artifact prefix = elim (artifact.map prefix) [
  | none ↦ none
  | some id ↦ get_elem? artifact.provenance id
]

-- Whether a rule of this scope decides at a boundary, which is the last or not.
unfoldable pub decides : Bool → Option RuleScope → Bool
decides last none = false
decides last (some apex) = true
decides last (some exact_host) = last

try_boundaries : BlocklistArtifact → Bytes → List ℕ → Option FilterAction
try_boundaries artifact bytes [] = none
try_boundaries artifact bytes (i ∷ boundaries) =
    if decides (i == length bytes) (scope_at artifact (take i bytes))
    then some block
    else try_boundaries artifact bytes boundaries

-- `BlocklistArtifact::lookup`
pub artifact_lookup : BlocklistArtifact → Bytes → Option FilterAction
artifact_lookup artifact bytes = try_boundaries artifact bytes (boundaries_from 0 bytes)

-- `Allowlist::insert` and `Allowlist::from_entries`, over the keys in some order.
pub allow_entry : (Bytes → Option Bytes) → Bytes → List Bytes → List Bytes
allow_entry to_ascii entry entries = elim (normalize to_ascii entry) [
  | key k ↦ k ∷ entries
  | failed e ↦ entries
]

-- Whether what stands behind a dot of the text is an entry.
suffix_allowed : List Bytes → Bytes → Bool
suffix_allowed entries [] = false
suffix_allowed entries (b ∷ text) =
    (b == b'.' && member text entries) || suffix_allowed entries text

-- `Allowlist::contains`
pub allow_contains : List Bytes → Bytes → Bool
allow_contains entries normalized = member normalized entries || suffix_allowed entries normalized

module _ (registrable : Bytes → Option Bytes) (under_private_suffix : Bytes → Bool) where
  -- Level 4, where an artifact is given.
  artifact_level : Option BlocklistArtifact → Bytes → Option FilterAction
  artifact_level none normalized = none
  artifact_level (some artifact) normalized = artifact_lookup artifact (reverse_key normalized)

  -- Levels 2b and 4.
  keyword_level : List Bytes → Option BlocklistArtifact → Bytes → Option FilterAction
  keyword_level keywords artifact normalized =
      elim (keyword_matches registrable under_private_suffix keywords normalized) [
        | some m ↦ some block
        | none ↦ artifact_level artifact normalized
      ]

  pub resolve_action :
      Bytes → List Bytes → TrieNode → List Bytes → Option BlocklistArtifact → Option FilterAction
  resolve_action normalized allowlist explicit keywords artifact =
      if allow_contains allowlist normalized
      then some allow
      else elim (rule_for explicit normalized) [
        | some action ↦ some action
        | none ↦ keyword_level keywords artifact normalized
      ]
