-- ===== src/DomainBlocklist/Liveness/Cache.antt =====
-- liveness/cache.rs: when a domain is due for a check, and when it is pruned. `saturating_sub` is the
-- subtraction on ℕ.
pub mod Prune
use holy_blocker.Shared.{
  text_eq, ◌==◌, ◌-◌, ◌&&◌, not, if◌then◌else◌, any, [], leb, ◌∷◌, codes, Bool, Bytes, List, Option,
  ℕ, none, some, true, false,
}
use holy_blocker.DomainBlocklist.Liveness.Lookup.{Verdict, dead}
use holy_blocker.NetShield.Utf8.{to_ascii_lowercase}
use holy_blocker.DomainNormalize.{strip_dot}

pub record CacheEntry : Type 0 where
  pub last_checked : ℕ
  pub verdict : Verdict
  pub first_dead_at : Option ℕ

unfoldable pub due_for_check : Option CacheEntry → ℕ → ℕ → Bool
due_for_check none now ttl_seconds = true
due_for_check (some entry) now ttl_seconds = leb ttl_seconds (now - entry.last_checked)

abbrev pub special_use_tlds : List Bytes
special_use_tlds =
    codes "onion"
    ∷ codes "local"
    ∷ codes "localhost"
    ∷ codes "test"
    ∷ codes "invalid"
    ∷ codes "example"
    ∷ []

unfoldable pub has_dot : Bytes → Bool
has_dot text = any (λ b. b == b'.') text

-- `trimmed.rsplit_once('.')`: what stands behind the last dot, or the whole text.
unfoldable pub last_label : Bytes → Bytes
last_label [] = []
last_label (b ∷ text) =
    let rest = last_label text in
    if b == b'.' then rest else if has_dot text then rest else b ∷ text

unfoldable pub is_special_use_domain : Bytes → Bool
is_special_use_domain domain =
    any (λ special. text_eq (to_ascii_lowercase (last_label (strip_dot domain))) special)
      special_use_tlds

unfoldable pub should_prune : Bytes → Verdict → Bool
should_prune domain dead = not (is_special_use_domain domain)
should_prune domain _ = false

unfoldable pub quarantined : Option ℕ → ℕ → ℕ → Bool
quarantined none now quarantine_seconds = false
quarantined (some first_dead_at) now quarantine_seconds =
    leb quarantine_seconds (now - first_dead_at)

unfoldable pub should_prune_with_hysteresis : CacheEntry → Bytes → Verdict → ℕ → ℕ → Bool
should_prune_with_hysteresis entry domain verdict now quarantine_seconds =
    should_prune domain verdict && quarantined entry.first_dead_at now quarantine_seconds
