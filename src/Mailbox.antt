-- ===== src/Mailbox.antt =====
-- The mailboxes of an aggregate, format1/v1.rs.
pub mod Records
pub mod Documents
pub mod Sources
pub mod Copies
pub mod Admit
pub mod Step
pub mod Integrity
pub mod Semantics
