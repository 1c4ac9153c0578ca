-- ===== src/Codes/Checkpoint/AdapterErrors.antt =====
-- `AdapterErrorCode` of checkpoint/store.rs.
use determa_state_rust.Prelude.{
  String, Option, none, some, List, [], ◌∷◌, ◌≡◌, inl, inr, refl, Elem, str_eq, if◌then◌else◌,
}
use determa_state_rust.Codes.{IsRegistry, distinct_of_inverse}

pub data AdapterErrorCode : Type 0 where
  duplicate_adapter_registration : AdapterErrorCode
  unknown_adapter : AdapterErrorCode
  invalid_adapter_configuration : AdapterErrorCode
  adapter_capability_mismatch : AdapterErrorCode

-- `AdapterErrorCode::as_str`
pub adapter_error_code_as_str : AdapterErrorCode → String
adapter_error_code_as_str AdapterErrorCode.duplicate_adapter_registration =
    "duplicate_adapter_registration"
adapter_error_code_as_str AdapterErrorCode.unknown_adapter = "unknown_adapter"
adapter_error_code_as_str AdapterErrorCode.invalid_adapter_configuration =
    "invalid_adapter_configuration"
adapter_error_code_as_str AdapterErrorCode.adapter_capability_mismatch =
    "adapter_capability_mismatch"

-- `AdapterErrorCode::PORTABLE_CODES`
pub adapter_error_code_portable_codes : List AdapterErrorCode
adapter_error_code_portable_codes =
    AdapterErrorCode.duplicate_adapter_registration ∷ AdapterErrorCode.unknown_adapter
    ∷ AdapterErrorCode.invalid_adapter_configuration ∷ AdapterErrorCode.adapter_capability_mismatch
    ∷ []

adapter_error_code_of : String → Option AdapterErrorCode
adapter_error_code_of text =
    if str_eq text "duplicate_adapter_registration"
    then some AdapterErrorCode.duplicate_adapter_registration
    else if str_eq text "unknown_adapter"
    then some AdapterErrorCode.unknown_adapter
    else if str_eq text "invalid_adapter_configuration"
    then some AdapterErrorCode.invalid_adapter_configuration
    else if str_eq text "adapter_capability_mismatch"
    then some AdapterErrorCode.adapter_capability_mismatch
    else none

adapter_error_code_of-as_str :
    (c : AdapterErrorCode) → adapter_error_code_of (adapter_error_code_as_str c) ≡ some c
unfolding adapter_error_code_of adapter_error_code_as_str
adapter_error_code_of-as_str AdapterErrorCode.duplicate_adapter_registration = refl
adapter_error_code_of-as_str AdapterErrorCode.unknown_adapter = refl
adapter_error_code_of-as_str AdapterErrorCode.invalid_adapter_configuration = refl
adapter_error_code_of-as_str AdapterErrorCode.adapter_capability_mismatch = refl

adapter_error_code_listed : (c : AdapterErrorCode) → Elem c adapter_error_code_portable_codes
unfolding adapter_error_code_portable_codes
adapter_error_code_listed AdapterErrorCode.duplicate_adapter_registration = inl refl
adapter_error_code_listed AdapterErrorCode.unknown_adapter = inr (inl refl)
adapter_error_code_listed AdapterErrorCode.invalid_adapter_configuration = inr (inr (inl refl))
adapter_error_code_listed AdapterErrorCode.adapter_capability_mismatch = inr (inr (inr (inl refl)))

pub adapter_error_code-IsRegistry :
    IsRegistry adapter_error_code_as_str adapter_error_code_portable_codes (λ _. Unit {0})
adapter_error_code-IsRegistry = (
  λ c. (λ _. tt, λ _. adapter_error_code_listed c),
  distinct_of_inverse adapter_error_code_as_str adapter_error_code_of adapter_error_code_of-as_str,
)
