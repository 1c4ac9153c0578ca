-- ===== src/Codes/Inspecting.antt =====
-- The closed codes of format1/inspection.rs: how a candidate would be taken, and why an inspection fails.
use determa_state_rust.Prelude.{
  String, Option, none, some, List, [], ◌∷◌, ◌≡◌, inl, inr, refl, Elem, str_eq, if◌then◌else◌,
}
use determa_state_rust.Codes.{IsRegistry, distinct_of_inverse}

pub data InspectionDispositionCode : Type 0 where
  handled_now : InspectionDispositionCode
  deferred : InspectionDispositionCode
  unhandled : InspectionDispositionCode
  invalid : InspectionDispositionCode

-- `InspectionDispositionCode::as_str`
pub inspection_disposition_code_as_str : InspectionDispositionCode → String
inspection_disposition_code_as_str InspectionDispositionCode.handled_now = "handled_now"
inspection_disposition_code_as_str InspectionDispositionCode.deferred = "deferred"
inspection_disposition_code_as_str InspectionDispositionCode.unhandled = "unhandled"
inspection_disposition_code_as_str InspectionDispositionCode.invalid = "invalid"

-- `InspectionDispositionCode::PORTABLE_CODES`
pub inspection_disposition_code_portable_codes : List InspectionDispositionCode
inspection_disposition_code_portable_codes =
    InspectionDispositionCode.handled_now ∷ InspectionDispositionCode.deferred
    ∷ InspectionDispositionCode.unhandled ∷ InspectionDispositionCode.invalid ∷ []

inspection_disposition_code_of : String → Option InspectionDispositionCode
inspection_disposition_code_of text =
    if str_eq text "handled_now"
    then some InspectionDispositionCode.handled_now
    else if str_eq text "deferred"
    then some InspectionDispositionCode.deferred
    else if str_eq text "unhandled"
    then some InspectionDispositionCode.unhandled
    else if str_eq text "invalid"
    then some InspectionDispositionCode.invalid
    else none

inspection_disposition_code_of-as_str :
    (c : InspectionDispositionCode)
    → inspection_disposition_code_of (inspection_disposition_code_as_str c) ≡ some c
unfolding inspection_disposition_code_of inspection_disposition_code_as_str
inspection_disposition_code_of-as_str InspectionDispositionCode.handled_now = refl
inspection_disposition_code_of-as_str InspectionDispositionCode.deferred = refl
inspection_disposition_code_of-as_str InspectionDispositionCode.unhandled = refl
inspection_disposition_code_of-as_str InspectionDispositionCode.invalid = refl

inspection_disposition_code_listed :
    (c : InspectionDispositionCode) → Elem c inspection_disposition_code_portable_codes
unfolding inspection_disposition_code_portable_codes
inspection_disposition_code_listed InspectionDispositionCode.handled_now = inl refl
inspection_disposition_code_listed InspectionDispositionCode.deferred = inr (inl refl)
inspection_disposition_code_listed InspectionDispositionCode.unhandled = inr (inr (inl refl))
inspection_disposition_code_listed InspectionDispositionCode.invalid = inr (inr (inr (inl refl)))

inspection_disposition_code-IsRegistry :
    IsRegistry inspection_disposition_code_as_str inspection_disposition_code_portable_codes
      (λ _. Unit {0})
inspection_disposition_code-IsRegistry = (
  λ c. (λ _. tt, λ _. inspection_disposition_code_listed c),
  distinct_of_inverse inspection_disposition_code_as_str inspection_disposition_code_of
      inspection_disposition_code_of-as_str,
)

pub data InspectionFailureCode : Type 0 where
  invalid_inspection_request : InspectionFailureCode
  inspection_capability_unavailable : InspectionFailureCode
  inspection_guard_failure : InspectionFailureCode
  inspection_limit_exceeded : InspectionFailureCode

-- `InspectionFailureCode::as_str`
pub inspection_failure_code_as_str : InspectionFailureCode → String
inspection_failure_code_as_str InspectionFailureCode.invalid_inspection_request =
    "invalid_inspection_request"
inspection_failure_code_as_str InspectionFailureCode.inspection_capability_unavailable =
    "inspection_capability_unavailable"
inspection_failure_code_as_str InspectionFailureCode.inspection_guard_failure =
    "inspection_guard_failure"
inspection_failure_code_as_str InspectionFailureCode.inspection_limit_exceeded =
    "inspection_limit_exceeded"

-- `InspectionFailureCode::PORTABLE_CODES`
pub inspection_failure_code_portable_codes : List InspectionFailureCode
inspection_failure_code_portable_codes =
    InspectionFailureCode.invalid_inspection_request
    ∷ InspectionFailureCode.inspection_capability_unavailable
    ∷ InspectionFailureCode.inspection_guard_failure
    ∷ InspectionFailureCode.inspection_limit_exceeded ∷ []

inspection_failure_code_of : String → Option InspectionFailureCode
inspection_failure_code_of text =
    if str_eq text "invalid_inspection_request"
    then some InspectionFailureCode.invalid_inspection_request
    else if str_eq text "inspection_capability_unavailable"
    then some InspectionFailureCode.inspection_capability_unavailable
    else if str_eq text "inspection_guard_failure"
    then some InspectionFailureCode.inspection_guard_failure
    else if str_eq text "inspection_limit_exceeded"
    then some InspectionFailureCode.inspection_limit_exceeded
    else none

inspection_failure_code_of-as_str :
    (c : InspectionFailureCode)
    → inspection_failure_code_of (inspection_failure_code_as_str c) ≡ some c
unfolding inspection_failure_code_of inspection_failure_code_as_str
inspection_failure_code_of-as_str InspectionFailureCode.invalid_inspection_request = refl
inspection_failure_code_of-as_str InspectionFailureCode.inspection_capability_unavailable = refl
inspection_failure_code_of-as_str InspectionFailureCode.inspection_guard_failure = refl
inspection_failure_code_of-as_str InspectionFailureCode.inspection_limit_exceeded = refl

inspection_failure_code_listed :
    (c : InspectionFailureCode) → Elem c inspection_failure_code_portable_codes
unfolding inspection_failure_code_portable_codes
inspection_failure_code_listed InspectionFailureCode.invalid_inspection_request = inl refl
inspection_failure_code_listed InspectionFailureCode.inspection_capability_unavailable =
    inr (inl refl)
inspection_failure_code_listed InspectionFailureCode.inspection_guard_failure = inr (inr (inl refl))
inspection_failure_code_listed InspectionFailureCode.inspection_limit_exceeded =
    inr (inr (inr (inl refl)))

inspection_failure_code-IsRegistry :
    IsRegistry inspection_failure_code_as_str inspection_failure_code_portable_codes (λ _. Unit {0})
inspection_failure_code-IsRegistry = (
  λ c. (λ _. tt, λ _. inspection_failure_code_listed c),
  distinct_of_inverse inspection_failure_code_as_str inspection_failure_code_of
      inspection_failure_code_of-as_str,
)

pub data InspectionReasonCode : Type 0 where
  target_not_found : InspectionReasonCode
  target_incarnation_mismatch : InspectionReasonCode
  invalid_envelope : InspectionReasonCode
  runtime_inactive : InspectionReasonCode

-- `InspectionReasonCode::as_str`
pub inspection_reason_code_as_str : InspectionReasonCode → String
inspection_reason_code_as_str InspectionReasonCode.target_not_found = "target_not_found"
inspection_reason_code_as_str InspectionReasonCode.target_incarnation_mismatch =
    "target_incarnation_mismatch"
inspection_reason_code_as_str InspectionReasonCode.invalid_envelope = "invalid_envelope"
inspection_reason_code_as_str InspectionReasonCode.runtime_inactive = "runtime_inactive"

-- `InspectionReasonCode::PORTABLE_CODES`
pub inspection_reason_code_portable_codes : List InspectionReasonCode
inspection_reason_code_portable_codes =
    InspectionReasonCode.target_not_found ∷ InspectionReasonCode.target_incarnation_mismatch
    ∷ InspectionReasonCode.invalid_envelope ∷ InspectionReasonCode.runtime_inactive ∷ []

inspection_reason_code_of : String → Option InspectionReasonCode
inspection_reason_code_of text =
    if str_eq text "target_not_found"
    then some InspectionReasonCode.target_not_found
    else if str_eq text "target_incarnation_mismatch"
    then some InspectionReasonCode.target_incarnation_mismatch
    else if str_eq text "invalid_envelope"
    then some InspectionReasonCode.invalid_envelope
    else if str_eq text "runtime_inactive"
    then some InspectionReasonCode.runtime_inactive
    else none

inspection_reason_code_of-as_str :
    (c : InspectionReasonCode)
    → inspection_reason_code_of (inspection_reason_code_as_str c) ≡ some c
unfolding inspection_reason_code_of inspection_reason_code_as_str
inspection_reason_code_of-as_str InspectionReasonCode.target_not_found = refl
inspection_reason_code_of-as_str InspectionReasonCode.target_incarnation_mismatch = refl
inspection_reason_code_of-as_str InspectionReasonCode.invalid_envelope = refl
inspection_reason_code_of-as_str InspectionReasonCode.runtime_inactive = refl

inspection_reason_code_listed :
    (c : InspectionReasonCode) → Elem c inspection_reason_code_portable_codes
unfolding inspection_reason_code_portable_codes
inspection_reason_code_listed InspectionReasonCode.target_not_found = inl refl
inspection_reason_code_listed InspectionReasonCode.target_incarnation_mismatch = inr (inl refl)
inspection_reason_code_listed InspectionReasonCode.invalid_envelope = inr (inr (inl refl))
inspection_reason_code_listed InspectionReasonCode.runtime_inactive = inr (inr (inr (inl refl)))

inspection_reason_code-IsRegistry :
    IsRegistry inspection_reason_code_as_str inspection_reason_code_portable_codes (λ _. Unit {0})
inspection_reason_code-IsRegistry = (
  λ c. (λ _. tt, λ _. inspection_reason_code_listed c),
  distinct_of_inverse inspection_reason_code_as_str inspection_reason_code_of
      inspection_reason_code_of-as_str,
)

abbrev pub InspectingCodes : Type 0
InspectingCodes =
    IsRegistry inspection_disposition_code_as_str inspection_disposition_code_portable_codes
      (λ _. Unit {0})
    × IsRegistry inspection_failure_code_as_str inspection_failure_code_portable_codes
        (λ _. Unit {0})
    × IsRegistry inspection_reason_code_as_str inspection_reason_code_portable_codes (λ _. Unit {0})

-- The registry lists every disposition of a candidate, every failure of an inspection and every reason, and
-- within each of these sets the texts tell the codes apart.
pub inspecting_codes-IsRegistry : InspectingCodes
inspecting_codes-IsRegistry = (
  inspection_disposition_code-IsRegistry, inspection_failure_code-IsRegistry,
  inspection_reason_code-IsRegistry,
)
