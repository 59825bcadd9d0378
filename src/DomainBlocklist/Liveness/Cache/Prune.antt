-- ===== src/DomainBlocklist/Liveness/Cache/Prune.antt =====
-- What a pruned entry is.
use holy_blocker.Shared.{leb→le, refl, ◌-◌, ◌≤◌, ◌≡◌, ℕ, arith, none, some, true, false}
use holy_blocker.DomainBlocklist.Liveness.Lookup.{alive, dead, unknown}
use holy_blocker.DomainBlocklist.Liveness.Cache.{
  is_special_use_domain, Verdict, CacheEntry, Option, Bytes, should_prune_with_hysteresis,
  quarantined, should_prune,
}

should_prune-dead :
    (d : Bytes) (v : Verdict)
    → should_prune d v ≡ true
    → (v ≡ dead) × (is_special_use_domain d ≡ false)
unfolding should_prune
should_prune-dead d dead h = (refl, ground (arith, h))
should_prune-dead d alive h = cc
should_prune-dead d (unknown r) h = cc

quarantined-some :
    (first : Option ℕ) (now quarantine_seconds : ℕ)
    → quarantined first now quarantine_seconds ≡ true
    → (t : ℕ) × (first ≡ some t) × (quarantine_seconds ≤ now - t)
unfolding quarantined
quarantined-some none now quarantine_seconds h = cc
quarantined-some (some t) now quarantine_seconds h =
    (t, refl, leb→le quarantine_seconds (now - t) h)

-- A cached entry for which a domain is pruned.
pub record IsPruned (now quarantine_seconds : ℕ) (d : Bytes) (e : CacheEntry) : Type 0 where
  pub is_dead : e.verdict ≡ dead
  pub ordinary : is_special_use_domain d ≡ false
  pub died : (t : ℕ) × (e.first_dead_at ≡ some t) × (quarantine_seconds ≤ now - t)

pub should_prune-IsPruned :
    (e : CacheEntry) (d : Bytes) (now quarantine_seconds : ℕ)
    → should_prune_with_hysteresis e d e.verdict now quarantine_seconds ≡ true
    → IsPruned now quarantine_seconds d e
unfolding should_prune_with_hysteresis
should_prune-IsPruned e d now quarantine_seconds h =
    let (gone, ordinary) = should_prune-dead d e.verdict (ground (arith, h)) in
    let (t, died, long) =
      quarantined-some e.first_dead_at now quarantine_seconds (ground (arith, h)) in
    record { is_dead = gone; ordinary = ordinary; died = (t, died, long) }
