-- ===== src/Codes/Checkpoint/CheckpointErrors.antt =====
-- `CheckpointErrorCode` of checkpoint/types.rs.
use determa_state_rust.Prelude.{
  String, Option, none, some, List, [], ◌∷◌, ◌≡◌, inl, inr, refl, Elem, str_eq, if◌then◌else◌,
}
use determa_state_rust.Codes.{IsRegistry, distinct_of_inverse}

pub data CheckpointErrorCode : Type 0 where
  execution_checkpoint_digest_mismatch : CheckpointErrorCode
  invalid_execution_checkpoint : CheckpointErrorCode
  unsupported_execution_checkpoint_format : CheckpointErrorCode
  unsupported_execution_checkpoint_schema_version : CheckpointErrorCode

-- `CheckpointErrorCode::as_str`
pub checkpoint_error_code_as_str : CheckpointErrorCode → String
checkpoint_error_code_as_str CheckpointErrorCode.execution_checkpoint_digest_mismatch =
    "execution_checkpoint_digest_mismatch"
checkpoint_error_code_as_str CheckpointErrorCode.invalid_execution_checkpoint =
    "invalid_execution_checkpoint"
checkpoint_error_code_as_str CheckpointErrorCode.unsupported_execution_checkpoint_format =
    "unsupported_execution_checkpoint_format"
checkpoint_error_code_as_str CheckpointErrorCode.unsupported_execution_checkpoint_schema_version =
    "unsupported_execution_checkpoint_schema_version"

-- `CheckpointErrorCode::PORTABLE_CODES`
pub checkpoint_error_code_portable_codes : List CheckpointErrorCode
checkpoint_error_code_portable_codes =
    CheckpointErrorCode.execution_checkpoint_digest_mismatch
    ∷ CheckpointErrorCode.invalid_execution_checkpoint
    ∷ CheckpointErrorCode.unsupported_execution_checkpoint_format
    ∷ CheckpointErrorCode.unsupported_execution_checkpoint_schema_version ∷ []

checkpoint_error_code_of : String → Option CheckpointErrorCode
checkpoint_error_code_of text =
    if str_eq text "execution_checkpoint_digest_mismatch"
    then some CheckpointErrorCode.execution_checkpoint_digest_mismatch
    else if str_eq text "invalid_execution_checkpoint"
    then some CheckpointErrorCode.invalid_execution_checkpoint
    else if str_eq text "unsupported_execution_checkpoint_format"
    then some CheckpointErrorCode.unsupported_execution_checkpoint_format
    else if str_eq text "unsupported_execution_checkpoint_schema_version"
    then some CheckpointErrorCode.unsupported_execution_checkpoint_schema_version
    else none

checkpoint_error_code_of-as_str :
    (c : CheckpointErrorCode) → checkpoint_error_code_of (checkpoint_error_code_as_str c) ≡ some c
unfolding checkpoint_error_code_of checkpoint_error_code_as_str
checkpoint_error_code_of-as_str CheckpointErrorCode.execution_checkpoint_digest_mismatch = refl
checkpoint_error_code_of-as_str CheckpointErrorCode.invalid_execution_checkpoint = refl
checkpoint_error_code_of-as_str CheckpointErrorCode.unsupported_execution_checkpoint_format = refl
checkpoint_error_code_of-as_str
      CheckpointErrorCode.unsupported_execution_checkpoint_schema_version =
    refl

checkpoint_error_code_listed :
    (c : CheckpointErrorCode) → Elem c checkpoint_error_code_portable_codes
unfolding checkpoint_error_code_portable_codes
checkpoint_error_code_listed CheckpointErrorCode.execution_checkpoint_digest_mismatch = inl refl
checkpoint_error_code_listed CheckpointErrorCode.invalid_execution_checkpoint = inr (inl refl)
checkpoint_error_code_listed CheckpointErrorCode.unsupported_execution_checkpoint_format =
    inr (inr (inl refl))
checkpoint_error_code_listed CheckpointErrorCode.unsupported_execution_checkpoint_schema_version =
    inr (inr (inr (inl refl)))

pub checkpoint_error_code-IsRegistry :
    IsRegistry checkpoint_error_code_as_str checkpoint_error_code_portable_codes (λ _. Unit {0})
checkpoint_error_code-IsRegistry = (
  λ c. (λ _. tt, λ _. checkpoint_error_code_listed c),
  distinct_of_inverse checkpoint_error_code_as_str checkpoint_error_code_of
      checkpoint_error_code_of-as_str,
)
