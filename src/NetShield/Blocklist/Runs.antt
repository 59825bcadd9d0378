-- ===== src/NetShield/Blocklist/Runs.antt =====
-- An artifact with one apex rule, and an allowlist of one entry.
use holy_blocker.Shared.{text_eq}
use holy_blocker.Shared.Texts.{split_dots}
use holy_blocker.NetShield.Blocklist.Boundary.{is_apex, artifact_lookup-covers, covers_from}
use holy_blocker.Shared.{◌⊎◌, ◌↔◌, text_eq, ◌≡◌, if◌then◌else◌, ◌∷◌, codes, Bytes}
use holy_blocker.NetShield.Blocklist.{
  member, block, none, true, some, [], artifact_lookup, ℕ, apex, Option, allow_contains, scope_at,
  BlocklistArtifact,
}
use holy_blocker.NetShield.Blocklist.Allowed.{allow_contains_iff, Below}

abbrev one_rule : Bytes → Option ℕ
one_rule k = if text_eq k (codes "com.example") then some 0 else none

abbrev artifact : BlocklistArtifact
artifact = record { map = one_rule; provenance = apex ∷ []; version = 1 }

artifact_lookup-covers_example : artifact_lookup artifact (codes "com.example.www") ≡ some block
unfolding covers_from scope_at is_apex split_dots text_eq
artifact_lookup-covers_example = artifact_lookup-covers artifact (codes "com.example.www")

allow_contains_iff_example : (allow_contains (codes "a.org" ∷ []) (codes "x.a.org") ≡ true) ↔ (
    (member (codes "x.a.org") (codes "a.org" ∷ []) ≡ true)
    ⊎ Below (codes "a.org" ∷ []) (codes "x.a.org"))
allow_contains_iff_example = allow_contains_iff (codes "a.org" ∷ []) (codes "x.a.org")
