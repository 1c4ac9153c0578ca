-- ===== src/State.antt =====
-- The hierarchical state machine of format1/runtime.rs: the paths of states, the compiled machine,
-- the active configuration, handler selection and the exit boundary of a transition.
pub mod Paths
pub mod Machine
pub mod Outcome
pub mod ByDepth
pub mod Config
pub mod Search
pub mod Select
pub mod Boundary
pub mod Active
pub mod Shape
