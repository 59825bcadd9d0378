-- ===== src/NetShield/Blocklist/Allowed.antt =====
-- The allowlist covers an entry and every name below it.
use holy_blocker.Shared.{
  ap, inr, ◌&&◌, inl, ◌==◌, [], ◌⊎◌, Bool-cases, ◌↔◌, ◌∷◌, ◌++◌, ◌≡◌, List, arith,
}
use holy_blocker.NetShield.Blocklist.{
  allow, some, BlocklistArtifact, TrieNode, resolve_action, Bool, Option, ◌∷◌, true, member,
  suffix_allowed, Bytes, allow_contains,
}

-- The text is an entry behind a dot, whatever stands before the dot.
abbrev pub Below : List Bytes → Bytes → Type 0
Below entries text =
    (sub : Bytes) × (entry : Bytes) × (text ≡ sub ++ (b'.' ∷ entry)) × (member entry entries ≡ true)

suffix_allowed-Below :
    (entries : List Bytes) (text : Bytes) → suffix_allowed entries text ≡ true → Below entries text
unfolding suffix_allowed
suffix_allowed-Below entries [] h = cc
suffix_allowed-Below entries (b ∷ text) h = elim (Bool-cases (b == b'.' && member text entries)) [
  | inl here ↦ ([], text, ground (arith, here), ground (arith, here))
  | inr other ↦
      let (sub, entry, e, m) = suffix_allowed-Below entries text (rw other at h) in
      (b ∷ sub, entry, ap (λ t. b ∷ t) e, m)
]

suffix_allowed-append :
    (entries : List Bytes) (sub entry : Bytes)
    → member entry entries ≡ true
    → suffix_allowed entries (sub ++ (b'.' ∷ entry)) ≡ true
unfolding suffix_allowed
suffix_allowed-append entries [] entry m = rw m
suffix_allowed-append entries (b ∷ sub) entry m =
    ground (arith, suffix_allowed-append entries sub entry m)

-- A name is allowed exactly when it is an entry of the allowlist, or ends in a dot and an entry.
pub allow_contains_iff :
    (entries : List Bytes) (name : Bytes)
    → (allow_contains entries name ≡ true) ↔ ((member name entries ≡ true) ⊎ Below entries name)
unfolding allow_contains
allow_contains_iff entries name = (
  λ h. elim (Bool-cases (member name entries)) [
    | inl here ↦ inl here
    | inr other ↦ inr (suffix_allowed-Below entries name (rw other at h))
  ],
  λ h. elim h [
    | inl here ↦ rw here
    | inr (sub, entry, e, m) ↦ ground (arith, e, suffix_allowed-append entries sub entry m)
  ],
)

module _ (registrable : Bytes → Option Bytes) (under_private_suffix : Bytes → Bool) where
  -- The allowlist goes before all other rules.
  pub resolve_action-allowed :
      (name : Bytes) (allowlist : List Bytes) (explicit : TrieNode) (keywords : List Bytes)
      (artifact : Option BlocklistArtifact)
      → (member name allowlist ≡ true) ⊎ Below allowlist name
      → resolve_action registrable under_private_suffix name allowlist explicit keywords artifact
        ≡ some allow
  unfolding resolve_action
  resolve_action-allowed name allowlist explicit keywords artifact listed =
      let wins = (allow_contains_iff allowlist name).1 listed in rw wins
