-- ===== src/DomainBlocklist.antt =====
-- packages/domain-blocklist: the types that the build passes along, the merge of its sources, the
-- liveness sweep with its cache, and the gates.
pub mod Types
pub mod Liveness
pub mod Backend
pub mod Sweep
pub mod Gates
pub mod Merge
pub mod PersonalName
pub mod CacheStore
