-- ===== src/Checkpoint.antt =====
-- The execution checkpoint of checkpoint/v1.rs: what it stores, how it is sealed, and the life of an
-- outbox effect.
pub mod Records
pub mod ByKey
pub mod Seal
pub mod Outbox
pub mod Retained
