-- ===== src/Codes/Loading.antt =====
-- The closed codes of format1/source.rs: why a machine document is refused.
pub mod Listed
use determa_state_rust.Prelude.{
  String, Option, none, some, List, [], ◌∷◌, ◌≡◌, ◌≢◌, inl, inr, refl, Elem, str_eq, if◌then◌else◌,
}
use determa_state_rust.Codes.{IsRegistry, distinct_of_inverse}

pub data LoadErrorCode : Type 0 where
  duplicate_key : LoadErrorCode
  non_string_map_key : LoadErrorCode
  unsupported_yaml_feature : LoadErrorCode
  unsupported_format : LoadErrorCode
  non_json_value : LoadErrorCode
  invalid_unicode : LoadErrorCode
  invalid_numeric_syntax : LoadErrorCode
  invalid_boolean_syntax : LoadErrorCode
  invalid_null_syntax : LoadErrorCode
  numeric_value_out_of_range : LoadErrorCode
  structural_validation : LoadErrorCode
  semantic_validation : LoadErrorCode
  cel_profile_error : LoadErrorCode
  invalid_binding : LoadErrorCode
  destroyed_variable_write : LoadErrorCode
  destroyed_reference_binding : LoadErrorCode
  root_reentry : LoadErrorCode
  root_local_transition : LoadErrorCode
  runtime_provider_unavailable : LoadErrorCode

-- `LoadErrorCode::as_str`
pub load_error_code_as_str : LoadErrorCode → String
load_error_code_as_str LoadErrorCode.duplicate_key = "duplicate_key"
load_error_code_as_str LoadErrorCode.non_string_map_key = "non_string_map_key"
load_error_code_as_str LoadErrorCode.unsupported_yaml_feature = "unsupported_yaml_feature"
load_error_code_as_str LoadErrorCode.unsupported_format = "unsupported_format"
load_error_code_as_str LoadErrorCode.non_json_value = "non_json_value"
load_error_code_as_str LoadErrorCode.invalid_unicode = "invalid_unicode"
load_error_code_as_str LoadErrorCode.invalid_numeric_syntax = "invalid_numeric_syntax"
load_error_code_as_str LoadErrorCode.invalid_boolean_syntax = "invalid_boolean_syntax"
load_error_code_as_str LoadErrorCode.invalid_null_syntax = "invalid_null_syntax"
load_error_code_as_str LoadErrorCode.numeric_value_out_of_range = "numeric_value_out_of_range"
load_error_code_as_str LoadErrorCode.structural_validation = "structural_validation"
load_error_code_as_str LoadErrorCode.semantic_validation = "semantic_validation"
load_error_code_as_str LoadErrorCode.cel_profile_error = "cel_profile_error"
load_error_code_as_str LoadErrorCode.invalid_binding = "invalid_binding"
load_error_code_as_str LoadErrorCode.destroyed_variable_write = "destroyed_variable_write"
load_error_code_as_str LoadErrorCode.destroyed_reference_binding = "destroyed_reference_binding"
load_error_code_as_str LoadErrorCode.root_reentry = "root_reentry"
load_error_code_as_str LoadErrorCode.root_local_transition = "root_local_transition"
load_error_code_as_str LoadErrorCode.runtime_provider_unavailable = "runtime_provider_unavailable"

-- `LoadErrorCode::PORTABLE_CODES`
pub load_error_code_portable_codes : List LoadErrorCode
load_error_code_portable_codes =
    LoadErrorCode.duplicate_key ∷ LoadErrorCode.non_string_map_key
    ∷ LoadErrorCode.unsupported_yaml_feature ∷ LoadErrorCode.unsupported_format
    ∷ LoadErrorCode.non_json_value ∷ LoadErrorCode.invalid_unicode
    ∷ LoadErrorCode.invalid_numeric_syntax ∷ LoadErrorCode.invalid_boolean_syntax
    ∷ LoadErrorCode.invalid_null_syntax ∷ LoadErrorCode.numeric_value_out_of_range
    ∷ LoadErrorCode.semantic_validation ∷ LoadErrorCode.cel_profile_error
    ∷ LoadErrorCode.invalid_binding ∷ LoadErrorCode.destroyed_variable_write
    ∷ LoadErrorCode.destroyed_reference_binding ∷ LoadErrorCode.root_reentry
    ∷ LoadErrorCode.root_local_transition ∷ []
