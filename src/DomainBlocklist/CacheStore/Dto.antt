-- ===== src/DomainBlocklist/CacheStore/Dto.antt =====
-- packages/domain-blocklist/src/cache_store.rs, the types that are written to disk, and that an entry
-- comes back from them as it was.
use holy_blocker.DomainBlocklist.Liveness.Cache.{CacheEntry}
use holy_blocker.DomainBlocklist.Liveness.Lookup.{
  UnknownReason, Verdict, alive, dead, unknown, no_data, serv_fail, refused, form_err, not_imp,
  timeout, transport, malformed, chain_to_dead_target, filtered_by_resolver, uncorroborated_dead,
}
use holy_blocker.Shared.{refl, ap, Option, ◌≡◌, ℕ}

pub data UnknownReasonDto : Type 0 where
  no_data_dto serv_fail_dto refused_dto form_err_dto not_imp_dto timeout_dto : UnknownReasonDto
  malformed_dto chain_to_dead_target_dto filtered_by_resolver_dto : UnknownReasonDto
  uncorroborated_dead_dto transport_dto : UnknownReasonDto

pub data VerdictDto : Type 0 where
  alive_dto dead_dto : VerdictDto
  unknown_dto : UnknownReasonDto → VerdictDto

pub record CacheEntryDto : Type 0 where
  pub last_checked : ℕ
  pub verdict : VerdictDto
  pub first_dead_at : Option ℕ

-- `From<UnknownReason> for UnknownReasonDto`
pub reason_dto_of : UnknownReason → UnknownReasonDto
reason_dto_of no_data = no_data_dto
reason_dto_of serv_fail = serv_fail_dto
reason_dto_of refused = refused_dto
reason_dto_of form_err = form_err_dto
reason_dto_of not_imp = not_imp_dto
reason_dto_of timeout = timeout_dto
reason_dto_of malformed = malformed_dto
reason_dto_of chain_to_dead_target = chain_to_dead_target_dto
reason_dto_of filtered_by_resolver = filtered_by_resolver_dto
reason_dto_of uncorroborated_dead = uncorroborated_dead_dto
reason_dto_of transport = transport_dto

-- `From<UnknownReasonDto> for UnknownReason`
pub reason_of : UnknownReasonDto → UnknownReason
reason_of no_data_dto = no_data
reason_of serv_fail_dto = serv_fail
reason_of refused_dto = refused
reason_of form_err_dto = form_err
reason_of not_imp_dto = not_imp
reason_of timeout_dto = timeout
reason_of malformed_dto = malformed
reason_of chain_to_dead_target_dto = chain_to_dead_target
reason_of filtered_by_resolver_dto = filtered_by_resolver
reason_of uncorroborated_dead_dto = uncorroborated_dead
reason_of transport_dto = transport

unfoldable pub verdict_dto_of : Verdict → VerdictDto
verdict_dto_of alive = alive_dto
verdict_dto_of dead = dead_dto
verdict_dto_of (unknown r) = unknown_dto (reason_dto_of r)

unfoldable pub verdict_of : VerdictDto → Verdict
verdict_of alive_dto = alive
verdict_of dead_dto = dead
verdict_of (unknown_dto r) = unknown (reason_of r)

unfoldable pub dto_of : CacheEntry → CacheEntryDto
dto_of e = record {
  last_checked = e.last_checked;
  verdict = verdict_dto_of e.verdict;
  first_dead_at = e.first_dead_at;
}

unfoldable pub entry_of : CacheEntryDto → CacheEntry
entry_of e = record {
  last_checked = e.last_checked;
  verdict = verdict_of e.verdict;
  first_dead_at = e.first_dead_at;
}

reason_of-reason_dto_of : (r : UnknownReason) → reason_of (reason_dto_of r) ≡ r
unfolding reason_of reason_dto_of
reason_of-reason_dto_of no_data = refl
reason_of-reason_dto_of serv_fail = refl
reason_of-reason_dto_of refused = refl
reason_of-reason_dto_of form_err = refl
reason_of-reason_dto_of not_imp = refl
reason_of-reason_dto_of timeout = refl
reason_of-reason_dto_of malformed = refl
reason_of-reason_dto_of chain_to_dead_target = refl
reason_of-reason_dto_of filtered_by_resolver = refl
reason_of-reason_dto_of uncorroborated_dead = refl
reason_of-reason_dto_of transport = refl

verdict_of-verdict_dto_of : (v : Verdict) → verdict_of (verdict_dto_of v) ≡ v
unfolding verdict_of verdict_dto_of
verdict_of-verdict_dto_of alive = refl
verdict_of-verdict_dto_of dead = refl
verdict_of-verdict_dto_of (unknown r) = ap unknown (reason_of-reason_dto_of r)

pub entry_of-dto_of : (e : CacheEntry) → entry_of (dto_of e) ≡ e
unfolding entry_of dto_of
entry_of-dto_of e = cc (verdict_of-verdict_dto_of e.verdict)
