-- ===== src/Mailbox/Step.antt =====
-- `step_v1` of format1/v1.rs: the first ready entry of a runtime is given to the engine, and the document is
-- rewritten by what the engine answers.
pub mod Branches
pub mod Recall
pub mod Dispose
pub mod Emit
pub mod Run
pub mod Recalled
pub mod Reindex
pub mod Merged
pub mod Disposed
pub mod Emitted
pub mod Conserves
pub mod Whole
