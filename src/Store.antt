-- ===== src/Store.antt =====
-- The execution stores: the contract of checkpoint/store.rs, the in-memory adapter of
-- checkpoint/adapters/memory.rs, the capability names, and the host profiles.
pub mod Records
pub mod Contract
pub mod Memory
pub mod Capability
pub mod HostFeature
pub mod Names
pub mod Retention
pub mod Profile
pub mod Configuration
pub mod CompactPolicy
