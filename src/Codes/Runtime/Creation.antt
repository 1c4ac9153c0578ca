-- ===== src/Codes/Runtime/Creation.antt =====
-- `CreationRejectionCode` of format1/runtime.rs.
use determa_state_rust.Prelude.{
  String, Option, none, some, List, [], ◌∷◌, ◌≡◌, inl, inr, refl, Elem, str_eq, if◌then◌else◌,
}
use determa_state_rust.Codes.{IsRegistry, distinct_of_inverse}

pub data CreationRejectionCode : Type 0 where
  invalid_binding : CreationRejectionCode
  invalid_creation_request : CreationRejectionCode
  invalid_machine_target : CreationRejectionCode

-- `CreationRejectionCode::as_str`
pub creation_rejection_code_as_str : CreationRejectionCode → String
creation_rejection_code_as_str CreationRejectionCode.invalid_binding = "invalid_binding"
creation_rejection_code_as_str CreationRejectionCode.invalid_creation_request =
    "invalid_creation_request"
creation_rejection_code_as_str CreationRejectionCode.invalid_machine_target =
    "invalid_machine_target"

-- `CreationRejectionCode::PORTABLE_CODES`
pub creation_rejection_code_portable_codes : List CreationRejectionCode
creation_rejection_code_portable_codes =
    CreationRejectionCode.invalid_binding ∷ CreationRejectionCode.invalid_creation_request
    ∷ CreationRejectionCode.invalid_machine_target ∷ []

creation_rejection_code_of : String → Option CreationRejectionCode
creation_rejection_code_of text =
    if str_eq text "invalid_binding"
    then some CreationRejectionCode.invalid_binding
    else if str_eq text "invalid_creation_request"
    then some CreationRejectionCode.invalid_creation_request
    else if str_eq text "invalid_machine_target"
    then some CreationRejectionCode.invalid_machine_target
    else none

creation_rejection_code_of-as_str :
    (c : CreationRejectionCode)
    → creation_rejection_code_of (creation_rejection_code_as_str c) ≡ some c
unfolding creation_rejection_code_of creation_rejection_code_as_str
creation_rejection_code_of-as_str CreationRejectionCode.invalid_binding = refl
creation_rejection_code_of-as_str CreationRejectionCode.invalid_creation_request = refl
creation_rejection_code_of-as_str CreationRejectionCode.invalid_machine_target = refl

creation_rejection_code_listed :
    (c : CreationRejectionCode) → Elem c creation_rejection_code_portable_codes
unfolding creation_rejection_code_portable_codes
creation_rejection_code_listed CreationRejectionCode.invalid_binding = inl refl
creation_rejection_code_listed CreationRejectionCode.invalid_creation_request = inr (inl refl)
creation_rejection_code_listed CreationRejectionCode.invalid_machine_target = inr (inr (inl refl))

pub creation_rejection_code-IsRegistry :
    IsRegistry creation_rejection_code_as_str creation_rejection_code_portable_codes (λ _. Unit {0})
creation_rejection_code-IsRegistry = (
  λ c. (λ _. tt, λ _. creation_rejection_code_listed c),
  distinct_of_inverse creation_rejection_code_as_str creation_rejection_code_of
      creation_rejection_code_of-as_str,
)
