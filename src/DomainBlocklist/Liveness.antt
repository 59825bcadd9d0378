-- ===== src/DomainBlocklist/Liveness.antt =====
-- packages/domain-blocklist/src/liveness: whether a listed domain still exists. A resolver is what it
-- answers to the queries of one check, the DNS client behind it is not modelled.
pub mod Lookup
pub mod Cache
pub mod Canary
mod Runs
