-- ===== src/Codes/Runtime.antt =====
-- The closed codes of format1/runtime.rs: dispositions, rejections and engine faults.
pub mod Dispositions
pub mod Creation
pub mod Dispatch
pub mod Faults
use determa_state_rust.Prelude.{
  String, Option, none, some, List, [], ◌∷◌, ◌≡◌, inl, inr, refl, Elem, str_eq, if◌then◌else◌,
}
use determa_state_rust.Codes.{IsRegistry, distinct_of_inverse}
use determa_state_rust.State.Outcome.{EngineFaultCode}
pub use determa_state_rust.Codes.Runtime.Dispositions.{
  Disposition, disposition_portable_codes, disposition-IsRegistry,
}
unfoldable pub use determa_state_rust.Codes.Runtime.Dispositions.{disposition_as_str}
pub use determa_state_rust.Codes.Runtime.Creation.{
  CreationRejectionCode, creation_rejection_code_as_str, creation_rejection_code_portable_codes,
  creation_rejection_code-IsRegistry,
}
pub use determa_state_rust.Codes.Runtime.Dispatch.{
  DispatchRejectionCode, dispatch_rejection_code_as_str, dispatch_rejection_code_portable_codes,
  dispatch_rejection_code-IsRegistry,
}
pub use determa_state_rust.Codes.Runtime.Faults.{
  engine_fault_code_as_str, engine_fault_code_portable_codes, engine_fault_code-IsRegistry,
}

abbrev pub RuntimeCodes : Type 0
RuntimeCodes =
    IsRegistry disposition_as_str disposition_portable_codes (λ _. Unit {0})
    × IsRegistry creation_rejection_code_as_str creation_rejection_code_portable_codes
        (λ _. Unit {0})
    × IsRegistry dispatch_rejection_code_as_str dispatch_rejection_code_portable_codes
        (λ _. Unit {0})
    × IsRegistry engine_fault_code_as_str engine_fault_code_portable_codes (λ _. Unit {0})

-- The registry lists every disposition, every rejection of a creation or a dispatch, and every engine
-- fault, and within each of these sets the texts tell the codes apart.
pub runtime_codes-IsRegistry : RuntimeCodes
runtime_codes-IsRegistry = (
  disposition-IsRegistry, creation_rejection_code-IsRegistry, dispatch_rejection_code-IsRegistry,
  engine_fault_code-IsRegistry,
)
