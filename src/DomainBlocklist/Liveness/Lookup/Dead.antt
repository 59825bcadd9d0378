-- ===== src/DomainBlocklist/Liveness/Lookup/Dead.antt =====
-- Which answers make a domain dead or alive.
use holy_blocker.Shared.{◌⊎◌, ◌↔◌, ◌≡◌, not, Bool, arith, true, false}
use holy_blocker.DomainBlocklist.Liveness.Lookup.{
  Answers, Verdict, check_rest, combine_nx, is_filtering_ede, check_corroborated, corroborate,
  check, combine, LookupResult, resolved, nx_domain, nx_domain_via_chain, unknown_result, alive,
  dead, unknown, a, aaaa,
}

-- An answer that the name does not exist, without a sign that the resolver filters.
unfoldable pub is_plain_nx : LookupResult → Bool
is_plain_nx (nx_domain auth ede) = not (is_filtering_ede ede)
is_plain_nx _ = false

unfoldable pub is_resolved : LookupResult → Bool
is_resolved (resolved ips) = true
is_resolved _ = false

combine-dead :
    (x y : LookupResult) → (combine x y ≡ dead) ↔ ((is_plain_nx x ≡ true) × (is_plain_nx y ≡ true))
unfolding combine combine_nx is_plain_nx
combine-dead (resolved ips) (resolved jps) = ground arith
combine-dead (resolved ips) (nx_domain auth ede) = ground arith
combine-dead (resolved ips) nx_domain_via_chain = ground arith
combine-dead (resolved ips) (unknown_result r) = ground arith
combine-dead (nx_domain auth ede) (resolved ips) = ground arith
combine-dead (nx_domain auth ede) (nx_domain auth' ede') = ground arith
combine-dead (nx_domain auth ede) nx_domain_via_chain = ground arith
combine-dead (nx_domain auth ede) (unknown_result r) = ground arith
combine-dead nx_domain_via_chain (resolved ips) = ground arith
combine-dead nx_domain_via_chain (nx_domain auth ede) = ground arith
combine-dead nx_domain_via_chain nx_domain_via_chain = ground arith
combine-dead nx_domain_via_chain (unknown_result r) = ground arith
combine-dead (unknown_result r) (resolved ips) = ground arith
combine-dead (unknown_result r) (nx_domain auth ede) = ground arith
combine-dead (unknown_result r) nx_domain_via_chain = ground arith
combine-dead (unknown_result r) (unknown_result s) = ground arith

check-dead :
    (answers : Answers)
    → (check answers ≡ dead)
      ↔ ((is_plain_nx (answers a) ≡ true) × (is_plain_nx (answers aaaa) ≡ true))
unfolding check check_rest is_plain_nx
check-dead answers = check_rest-dead (answers a)
  where
    check_rest-dead :
        (x : LookupResult)
        → (check_rest answers x ≡ dead)
          ↔ ((is_plain_nx x ≡ true) × (is_plain_nx (answers aaaa) ≡ true))
    check_rest-dead (resolved ips) = ground arith
    check_rest-dead (nx_domain auth ede) = combine-dead (nx_domain auth ede) (answers aaaa)
    check_rest-dead nx_domain_via_chain = combine-dead nx_domain_via_chain (answers aaaa)
    check_rest-dead (unknown_result r) = combine-dead (unknown_result r) (answers aaaa)

corroborate-dead : (v w : Verdict) → (corroborate v w ≡ dead) ↔ ((v ≡ dead) × (w ≡ dead))
unfolding corroborate
corroborate-dead alive w = ground arith
corroborate-dead dead alive = ground arith
corroborate-dead dead dead = ground arith
corroborate-dead dead (unknown r) = ground arith
corroborate-dead (unknown r) alive = ground arith
corroborate-dead (unknown r) dead = ground arith
corroborate-dead (unknown r) (unknown s) = ground arith

corroborate-alive : (v w : Verdict) → (corroborate v w ≡ alive) ↔ ((v ≡ alive) ⊎ (w ≡ alive))
unfolding corroborate
corroborate-alive alive w = ground arith
corroborate-alive dead alive = ground arith
corroborate-alive dead dead = ground arith
corroborate-alive dead (unknown r) = ground arith
corroborate-alive (unknown r) alive = ground arith
corroborate-alive (unknown r) dead = ground arith
corroborate-alive (unknown r) (unknown s) = ground arith

-- A corroborated check calls a domain dead exactly when both resolvers answer both queries, for A
-- and for AAAA, that the name does not exist, none of them with an error code of a filter.
pub check_corroborated-dead :
    (primary secondary : Answers)
    → (check_corroborated primary secondary ≡ dead) ↔ (
        (is_plain_nx (primary a) ≡ true)
        × (is_plain_nx (primary aaaa) ≡ true)
        × (is_plain_nx (secondary a) ≡ true)
        × (is_plain_nx (secondary aaaa) ≡ true))
unfolding check_corroborated
check_corroborated-dead primary secondary = ground (
  arith,
  corroborate-dead (check primary) (check secondary),
  check-dead primary,
  check-dead secondary,
)

combine-alive :
    (x y : LookupResult) → (combine x y ≡ alive) ↔ ((is_resolved x ≡ true) ⊎ (is_resolved y ≡ true))
unfolding combine combine_nx is_resolved
combine-alive (resolved ips) y = ground arith
combine-alive (nx_domain auth ede) (resolved ips) = ground arith
combine-alive (nx_domain auth ede) (nx_domain auth' ede') = ground arith
combine-alive (nx_domain auth ede) nx_domain_via_chain = ground arith
combine-alive (nx_domain auth ede) (unknown_result r) = ground arith
combine-alive nx_domain_via_chain (resolved ips) = ground arith
combine-alive nx_domain_via_chain (nx_domain auth ede) = ground arith
combine-alive nx_domain_via_chain nx_domain_via_chain = ground arith
combine-alive nx_domain_via_chain (unknown_result r) = ground arith
combine-alive (unknown_result r) (resolved ips) = ground arith
combine-alive (unknown_result r) (nx_domain auth ede) = ground arith
combine-alive (unknown_result r) nx_domain_via_chain = ground arith
combine-alive (unknown_result r) (unknown_result s) = ground arith

check-alive :
    (answers : Answers)
    → (check answers ≡ alive)
      ↔ ((is_resolved (answers a) ≡ true) ⊎ (is_resolved (answers aaaa) ≡ true))
unfolding check check_rest is_resolved
check-alive answers = check_rest-alive (answers a)
  where
    check_rest-alive :
        (x : LookupResult)
        → (check_rest answers x ≡ alive)
          ↔ ((is_resolved x ≡ true) ⊎ (is_resolved (answers aaaa) ≡ true))
    check_rest-alive (resolved ips) = ground arith
    check_rest-alive (nx_domain auth ede) = combine-alive (nx_domain auth ede) (answers aaaa)
    check_rest-alive nx_domain_via_chain = combine-alive nx_domain_via_chain (answers aaaa)
    check_rest-alive (unknown_result r) = combine-alive (unknown_result r) (answers aaaa)

-- A corroborated check calls a domain alive exactly when one resolver has an address for it.
pub check_corroborated-alive :
    (primary secondary : Answers)
    → (check_corroborated primary secondary ≡ alive) ↔ (
        ((is_resolved (primary a) ≡ true) ⊎ (is_resolved (primary aaaa) ≡ true))
        ⊎ ((is_resolved (secondary a) ≡ true) ⊎ (is_resolved (secondary aaaa) ≡ true)))
unfolding check_corroborated
check_corroborated-alive primary secondary = ground (
  arith,
  corroborate-alive (check primary) (check secondary),
  check-alive primary,
  check-alive secondary,
)
