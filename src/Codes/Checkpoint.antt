-- ===== src/Codes/Checkpoint.antt =====
-- The closed codes of checkpoint/types.rs and checkpoint/store.rs.
pub mod CheckpointErrors
pub mod PreAcceptance
pub mod StoreErrors
pub mod AdapterErrors
use determa_state_rust.Prelude.{
  String, Option, none, some, List, [], ◌∷◌, ◌≡◌, ◌≢◌, inl, inr, refl, Elem, str_eq, if◌then◌else◌,
}
use determa_state_rust.Codes.{IsRegistry, distinct_of_inverse}
use determa_state_rust.Store.Records.{StoreErrorCode}
pub use determa_state_rust.Codes.Checkpoint.CheckpointErrors.{
  CheckpointErrorCode, checkpoint_error_code_as_str, checkpoint_error_code_portable_codes,
  checkpoint_error_code-IsRegistry,
}
pub use determa_state_rust.Codes.Checkpoint.PreAcceptance.{
  PreAcceptanceFailureCode, pre_acceptance_failure_code_as_str,
  pre_acceptance_failure_code_portable_codes, pre_acceptance_failure_code-IsRegistry,
}
pub use determa_state_rust.Codes.Checkpoint.StoreErrors.{
  store_error_code_as_str, store_error_code_portable_codes, store_error_code-IsRegistry,
}
pub use determa_state_rust.Codes.Checkpoint.AdapterErrors.{
  AdapterErrorCode, adapter_error_code_as_str, adapter_error_code_portable_codes,
  adapter_error_code-IsRegistry,
}

abbrev pub CheckpointCodes : Type 0
CheckpointCodes =
    IsRegistry checkpoint_error_code_as_str checkpoint_error_code_portable_codes (λ _. Unit {0})
    × IsRegistry pre_acceptance_failure_code_as_str pre_acceptance_failure_code_portable_codes
        (λ _. Unit {0})
    × IsRegistry store_error_code_as_str store_error_code_portable_codes
        (λ c. c ≢ StoreErrorCode.execution_store_failure)
    × IsRegistry adapter_error_code_as_str adapter_error_code_portable_codes (λ _. Unit {0})

-- The registry lists every checkpoint error, every failure before acceptance and every adapter error,
-- and of the store errors all but the implementation's own failure; within each of these sets the
-- texts tell the codes apart.
pub checkpoint_codes-IsRegistry : CheckpointCodes
checkpoint_codes-IsRegistry = (
  checkpoint_error_code-IsRegistry, pre_acceptance_failure_code-IsRegistry,
  store_error_code-IsRegistry, adapter_error_code-IsRegistry,
)
