-- ===== src/Codes/Runtime/Faults.antt =====
-- `EngineFaultCode` of format1/runtime.rs.
use determa_state_rust.Prelude.{
  String, Option, none, some, List, [], ◌∷◌, ◌≡◌, inl, inr, refl, Elem, str_eq, if◌then◌else◌,
}
use determa_state_rust.Codes.{IsRegistry, distinct_of_inverse}
use determa_state_rust.State.Outcome.{EngineFaultCode}

-- `EngineFaultCode::as_str`
pub engine_fault_code_as_str : EngineFaultCode → String
engine_fault_code_as_str EngineFaultCode.action_fault = "action_fault"
engine_fault_code_as_str EngineFaultCode.binding_not_empty = "binding_not_empty"
engine_fault_code_as_str EngineFaultCode.cascade_fault = "cascade_fault"
engine_fault_code_as_str EngineFaultCode.contained_runtime_fault = "contained_runtime_fault"
engine_fault_code_as_str EngineFaultCode.deferred_event_capacity_exceeded =
    "deferred_event_capacity_exceeded"
engine_fault_code_as_str EngineFaultCode.guard_fault = "guard_fault"
engine_fault_code_as_str EngineFaultCode.inactive_component_target = "inactive_component_target"
engine_fault_code_as_str EngineFaultCode.invalid_instance_target = "invalid_instance_target"
engine_fault_code_as_str EngineFaultCode.invariant_fault = "invariant_fault"

-- `EngineFaultCode::PORTABLE_CODES`
pub engine_fault_code_portable_codes : List EngineFaultCode
engine_fault_code_portable_codes =
    EngineFaultCode.action_fault ∷ EngineFaultCode.binding_not_empty ∷ EngineFaultCode.cascade_fault
    ∷ EngineFaultCode.contained_runtime_fault ∷ EngineFaultCode.deferred_event_capacity_exceeded
    ∷ EngineFaultCode.guard_fault ∷ EngineFaultCode.inactive_component_target
    ∷ EngineFaultCode.invalid_instance_target ∷ EngineFaultCode.invariant_fault ∷ []

engine_fault_code_of : String → Option EngineFaultCode
engine_fault_code_of text =
    if str_eq text "action_fault"
    then some EngineFaultCode.action_fault
    else if str_eq text "binding_not_empty"
    then some EngineFaultCode.binding_not_empty
    else if str_eq text "cascade_fault"
    then some EngineFaultCode.cascade_fault
    else if str_eq text "contained_runtime_fault"
    then some EngineFaultCode.contained_runtime_fault
    else if str_eq text "deferred_event_capacity_exceeded"
    then some EngineFaultCode.deferred_event_capacity_exceeded
    else if str_eq text "guard_fault"
    then some EngineFaultCode.guard_fault
    else if str_eq text "inactive_component_target"
    then some EngineFaultCode.inactive_component_target
    else if str_eq text "invalid_instance_target"
    then some EngineFaultCode.invalid_instance_target
    else if str_eq text "invariant_fault"
    then some EngineFaultCode.invariant_fault
    else none

engine_fault_code_of-as_str :
    (c : EngineFaultCode) → engine_fault_code_of (engine_fault_code_as_str c) ≡ some c
unfolding engine_fault_code_of engine_fault_code_as_str
engine_fault_code_of-as_str EngineFaultCode.action_fault = refl
engine_fault_code_of-as_str EngineFaultCode.binding_not_empty = refl
engine_fault_code_of-as_str EngineFaultCode.cascade_fault = refl
engine_fault_code_of-as_str EngineFaultCode.contained_runtime_fault = refl
engine_fault_code_of-as_str EngineFaultCode.deferred_event_capacity_exceeded = refl
engine_fault_code_of-as_str EngineFaultCode.guard_fault = refl
engine_fault_code_of-as_str EngineFaultCode.inactive_component_target = refl
engine_fault_code_of-as_str EngineFaultCode.invalid_instance_target = refl
engine_fault_code_of-as_str EngineFaultCode.invariant_fault = refl

engine_fault_code_listed : (c : EngineFaultCode) → Elem c engine_fault_code_portable_codes
unfolding engine_fault_code_portable_codes
engine_fault_code_listed EngineFaultCode.action_fault = inl refl
engine_fault_code_listed EngineFaultCode.binding_not_empty = inr (inl refl)
engine_fault_code_listed EngineFaultCode.cascade_fault = inr (inr (inl refl))
engine_fault_code_listed EngineFaultCode.contained_runtime_fault = inr (inr (inr (inl refl)))
engine_fault_code_listed EngineFaultCode.deferred_event_capacity_exceeded =
    inr (inr (inr (inr (inl refl))))
engine_fault_code_listed EngineFaultCode.guard_fault = inr (inr (inr (inr (inr (inl refl)))))
engine_fault_code_listed EngineFaultCode.inactive_component_target =
    inr (inr (inr (inr (inr (inr (inl refl))))))
engine_fault_code_listed EngineFaultCode.invalid_instance_target =
    inr (inr (inr (inr (inr (inr (inr (inl refl)))))))
engine_fault_code_listed EngineFaultCode.invariant_fault =
    inr (inr (inr (inr (inr (inr (inr (inr (inl refl))))))))

pub engine_fault_code-IsRegistry :
    IsRegistry engine_fault_code_as_str engine_fault_code_portable_codes (λ _. Unit {0})
engine_fault_code-IsRegistry = (
  λ c. (λ _. tt, λ _. engine_fault_code_listed c),
  distinct_of_inverse engine_fault_code_as_str engine_fault_code_of engine_fault_code_of-as_str,
)
