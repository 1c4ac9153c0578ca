-- ===== src/Codes/Runtime/Dispatch.antt =====
-- `DispatchRejectionCode` of format1/runtime.rs.
use determa_state_rust.Prelude.{
  String, Option, none, some, List, [], ◌∷◌, ◌≡◌, inl, inr, refl, Elem, str_eq, if◌then◌else◌,
}
use determa_state_rust.Codes.{IsRegistry, distinct_of_inverse}

pub data DispatchRejectionCode : Type 0 where
  inactive_component_target : DispatchRejectionCode
  incompatible_bundle : DispatchRejectionCode
  invalid_correlation : DispatchRejectionCode
  invalid_event : DispatchRejectionCode
  invalid_instance_target : DispatchRejectionCode
  invalid_payload : DispatchRejectionCode
  invalid_prior_state : DispatchRejectionCode

-- `DispatchRejectionCode::as_str`
pub dispatch_rejection_code_as_str : DispatchRejectionCode → String
dispatch_rejection_code_as_str DispatchRejectionCode.inactive_component_target =
    "inactive_component_target"
dispatch_rejection_code_as_str DispatchRejectionCode.incompatible_bundle = "incompatible_bundle"
dispatch_rejection_code_as_str DispatchRejectionCode.invalid_correlation = "invalid_correlation"
dispatch_rejection_code_as_str DispatchRejectionCode.invalid_event = "invalid_event"
dispatch_rejection_code_as_str DispatchRejectionCode.invalid_instance_target =
    "invalid_instance_target"
dispatch_rejection_code_as_str DispatchRejectionCode.invalid_payload = "invalid_payload"
dispatch_rejection_code_as_str DispatchRejectionCode.invalid_prior_state = "invalid_prior_state"

-- `DispatchRejectionCode::PORTABLE_CODES`
pub dispatch_rejection_code_portable_codes : List DispatchRejectionCode
dispatch_rejection_code_portable_codes =
    DispatchRejectionCode.inactive_component_target ∷ DispatchRejectionCode.incompatible_bundle
    ∷ DispatchRejectionCode.invalid_correlation ∷ DispatchRejectionCode.invalid_event
    ∷ DispatchRejectionCode.invalid_instance_target ∷ DispatchRejectionCode.invalid_payload
    ∷ DispatchRejectionCode.invalid_prior_state ∷ []

dispatch_rejection_code_of : String → Option DispatchRejectionCode
dispatch_rejection_code_of text =
    if str_eq text "inactive_component_target"
    then some DispatchRejectionCode.inactive_component_target
    else if str_eq text "incompatible_bundle"
    then some DispatchRejectionCode.incompatible_bundle
    else if str_eq text "invalid_correlation"
    then some DispatchRejectionCode.invalid_correlation
    else if str_eq text "invalid_event"
    then some DispatchRejectionCode.invalid_event
    else if str_eq text "invalid_instance_target"
    then some DispatchRejectionCode.invalid_instance_target
    else if str_eq text "invalid_payload"
    then some DispatchRejectionCode.invalid_payload
    else if str_eq text "invalid_prior_state"
    then some DispatchRejectionCode.invalid_prior_state
    else none

dispatch_rejection_code_of-as_str :
    (c : DispatchRejectionCode)
    → dispatch_rejection_code_of (dispatch_rejection_code_as_str c) ≡ some c
unfolding dispatch_rejection_code_of dispatch_rejection_code_as_str
dispatch_rejection_code_of-as_str DispatchRejectionCode.inactive_component_target = refl
dispatch_rejection_code_of-as_str DispatchRejectionCode.incompatible_bundle = refl
dispatch_rejection_code_of-as_str DispatchRejectionCode.invalid_correlation = refl
dispatch_rejection_code_of-as_str DispatchRejectionCode.invalid_event = refl
dispatch_rejection_code_of-as_str DispatchRejectionCode.invalid_instance_target = refl
dispatch_rejection_code_of-as_str DispatchRejectionCode.invalid_payload = refl
dispatch_rejection_code_of-as_str DispatchRejectionCode.invalid_prior_state = refl

dispatch_rejection_code_listed :
    (c : DispatchRejectionCode) → Elem c dispatch_rejection_code_portable_codes
unfolding dispatch_rejection_code_portable_codes
dispatch_rejection_code_listed DispatchRejectionCode.inactive_component_target = inl refl
dispatch_rejection_code_listed DispatchRejectionCode.incompatible_bundle = inr (inl refl)
dispatch_rejection_code_listed DispatchRejectionCode.invalid_correlation = inr (inr (inl refl))
dispatch_rejection_code_listed DispatchRejectionCode.invalid_event = inr (inr (inr (inl refl)))
dispatch_rejection_code_listed DispatchRejectionCode.invalid_instance_target =
    inr (inr (inr (inr (inl refl))))
dispatch_rejection_code_listed DispatchRejectionCode.invalid_payload =
    inr (inr (inr (inr (inr (inl refl)))))
dispatch_rejection_code_listed DispatchRejectionCode.invalid_prior_state =
    inr (inr (inr (inr (inr (inr (inl refl))))))

pub dispatch_rejection_code-IsRegistry :
    IsRegistry dispatch_rejection_code_as_str dispatch_rejection_code_portable_codes (λ _. Unit {0})
dispatch_rejection_code-IsRegistry = (
  λ c. (λ _. tt, λ _. dispatch_rejection_code_listed c),
  distinct_of_inverse dispatch_rejection_code_as_str dispatch_rejection_code_of
      dispatch_rejection_code_of-as_str,
)
