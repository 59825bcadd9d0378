-- ===== src/DomainBlocklist/Liveness/Lookup.antt =====
-- liveness/lookup.rs and liveness/corroboration.rs: from the answers of two resolvers to a verdict.
pub mod Dead
use holy_blocker.Shared.{
  ◌||◌, [], if◌then◌else◌, any, ◌∷◌, ◌==◌, Bytes, Option, Bool, ℕ, List, none, some, true, false,
}

pub data UnknownReason : Type 0 where
  no_data serv_fail refused form_err not_imp timeout transport malformed : UnknownReason
  chain_to_dead_target filtered_by_resolver uncorroborated_dead : UnknownReason

-- An address is the list of its bytes; nothing reads it.
pub data LookupResult : Type 0 where
  resolved : List Bytes → LookupResult
  nx_domain : Bool → Option ℕ → LookupResult
  nx_domain_via_chain : LookupResult
  unknown_result : UnknownReason → LookupResult

pub data Verdict : Type 0 where
  alive dead : Verdict
  unknown : UnknownReason → Verdict

pub data RecordType : Type 0 where
  a aaaa : RecordType

-- The answers that a resolver gives to the queries of one check.
abbrev pub Answers : Type 0
Answers = RecordType → LookupResult

-- The derived equality of `Verdict`.
abbrev reason_code : UnknownReason → ℕ
reason_code no_data = 0
reason_code serv_fail = 1
reason_code refused = 2
reason_code form_err = 3
reason_code not_imp = 4
reason_code timeout = 5
reason_code transport = 6
reason_code malformed = 7
reason_code chain_to_dead_target = 8
reason_code filtered_by_resolver = 9
reason_code uncorroborated_dead = 10

abbrev pub verdict_eq : Verdict → Verdict → Bool
verdict_eq alive alive = true
verdict_eq dead dead = true
verdict_eq (unknown r) (unknown s) = reason_code r == reason_code s
verdict_eq _ _ = false

-- The extended DNS errors of a resolver that filters or lies.
abbrev pub filtering_codes : List ℕ
filtering_codes = 4 ∷ 6 ∷ 13 ∷ 15 ∷ 16 ∷ 17 ∷ 18 ∷ 19 ∷ []

unfoldable pub is_filtering_ede : Option ℕ → Bool
is_filtering_ede none = false
is_filtering_ede (some code) = any (λ c. c == code) filtering_codes

unfoldable pub combine_nx : Option ℕ → Option ℕ → Verdict
combine_nx a_ede aaaa_ede =
    if is_filtering_ede a_ede || is_filtering_ede aaaa_ede
    then unknown filtered_by_resolver
    else dead

unfoldable pub combine : LookupResult → LookupResult → Verdict
combine (resolved ips) _ = alive
combine (nx_domain auth ede) (resolved ips) = alive
combine (nx_domain auth ede) (nx_domain auth' ede') = combine_nx ede ede'
combine (nx_domain auth ede) nx_domain_via_chain = unknown chain_to_dead_target
combine (nx_domain auth ede) (unknown_result reason) = unknown reason
combine nx_domain_via_chain (resolved ips) = alive
combine nx_domain_via_chain _ = unknown chain_to_dead_target
combine (unknown_result reason) (resolved ips) = alive
combine (unknown_result reason) nx_domain_via_chain = unknown chain_to_dead_target
combine (unknown_result reason) _ = unknown reason

unfoldable pub check_rest : Answers → LookupResult → Verdict
check_rest answers (resolved ips) = alive
check_rest answers first = combine first (answers aaaa)

-- `check` and `check_async`
unfoldable pub check : Answers → Verdict
check answers = check_rest answers (answers a)

unfoldable pub corroborate : Verdict → Verdict → Verdict
corroborate alive _ = alive
corroborate dead alive = alive
corroborate dead dead = dead
corroborate dead (unknown reason) = unknown uncorroborated_dead
corroborate (unknown reason) alive = alive
corroborate (unknown reason) dead = unknown uncorroborated_dead
corroborate (unknown reason) (unknown other) = unknown reason

-- `check_corroborated` and `check_corroborated_async`
unfoldable pub check_corroborated : Answers → Answers → Verdict
check_corroborated primary secondary = corroborate (check primary) (check secondary)
