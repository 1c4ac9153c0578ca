-- ===== src/Codes/Loading/Listed.antt =====
-- The texts and the list of the closed codes of format1/source.rs: why a machine document is refused.
use determa_state_rust.Prelude.{
  String, Option, none, some, ◌≡◌, ◌≢◌, inl, inr, refl, Elem, str_eq, if◌then◌else◌,
}
use determa_state_rust.Codes.{IsRegistry, distinct_of_inverse}
use determa_state_rust.Codes.Loading.{
  LoadErrorCode, load_error_code_as_str, load_error_code_portable_codes,
}

load_error_code_of : String → Option LoadErrorCode
load_error_code_of text =
    if str_eq text "duplicate_key"
    then some LoadErrorCode.duplicate_key
    else if str_eq text "non_string_map_key"
    then some LoadErrorCode.non_string_map_key
    else if str_eq text "unsupported_yaml_feature"
    then some LoadErrorCode.unsupported_yaml_feature
    else if str_eq text "unsupported_format"
    then some LoadErrorCode.unsupported_format
    else if str_eq text "non_json_value"
    then some LoadErrorCode.non_json_value
    else if str_eq text "invalid_unicode"
    then some LoadErrorCode.invalid_unicode
    else if str_eq text "invalid_numeric_syntax"
    then some LoadErrorCode.invalid_numeric_syntax
    else if str_eq text "invalid_boolean_syntax"
    then some LoadErrorCode.invalid_boolean_syntax
    else if str_eq text "invalid_null_syntax"
    then some LoadErrorCode.invalid_null_syntax
    else if str_eq text "numeric_value_out_of_range"
    then some LoadErrorCode.numeric_value_out_of_range
    else if str_eq text "structural_validation"
    then some LoadErrorCode.structural_validation
    else if str_eq text "semantic_validation"
    then some LoadErrorCode.semantic_validation
    else if str_eq text "cel_profile_error"
    then some LoadErrorCode.cel_profile_error
    else if str_eq text "invalid_binding"
    then some LoadErrorCode.invalid_binding
    else if str_eq text "destroyed_variable_write"
    then some LoadErrorCode.destroyed_variable_write
    else if str_eq text "destroyed_reference_binding"
    then some LoadErrorCode.destroyed_reference_binding
    else if str_eq text "root_reentry"
    then some LoadErrorCode.root_reentry
    else if str_eq text "root_local_transition"
    then some LoadErrorCode.root_local_transition
    else if str_eq text "runtime_provider_unavailable"
    then some LoadErrorCode.runtime_provider_unavailable
    else none

load_error_code_of-as_str :
    (c : LoadErrorCode) → load_error_code_of (load_error_code_as_str c) ≡ some c
unfolding load_error_code_of load_error_code_as_str
load_error_code_of-as_str LoadErrorCode.duplicate_key = refl
load_error_code_of-as_str LoadErrorCode.non_string_map_key = refl
load_error_code_of-as_str LoadErrorCode.unsupported_yaml_feature = refl
load_error_code_of-as_str LoadErrorCode.unsupported_format = refl
load_error_code_of-as_str LoadErrorCode.non_json_value = refl
load_error_code_of-as_str LoadErrorCode.invalid_unicode = refl
load_error_code_of-as_str LoadErrorCode.invalid_numeric_syntax = refl
load_error_code_of-as_str LoadErrorCode.invalid_boolean_syntax = refl
load_error_code_of-as_str LoadErrorCode.invalid_null_syntax = refl
load_error_code_of-as_str LoadErrorCode.numeric_value_out_of_range = refl
load_error_code_of-as_str LoadErrorCode.structural_validation = refl
load_error_code_of-as_str LoadErrorCode.semantic_validation = refl
load_error_code_of-as_str LoadErrorCode.cel_profile_error = refl
load_error_code_of-as_str LoadErrorCode.invalid_binding = refl
load_error_code_of-as_str LoadErrorCode.destroyed_variable_write = refl
load_error_code_of-as_str LoadErrorCode.destroyed_reference_binding = refl
load_error_code_of-as_str LoadErrorCode.root_reentry = refl
load_error_code_of-as_str LoadErrorCode.root_local_transition = refl
load_error_code_of-as_str LoadErrorCode.runtime_provider_unavailable = refl

load_error_code_listed :
    (c : LoadErrorCode)
    → c ≢ LoadErrorCode.structural_validation × c ≢ LoadErrorCode.runtime_provider_unavailable
    → Elem c load_error_code_portable_codes
unfolding load_error_code_portable_codes
load_error_code_listed LoadErrorCode.duplicate_key h = inl refl
load_error_code_listed LoadErrorCode.non_string_map_key h = inr (inl refl)
load_error_code_listed LoadErrorCode.unsupported_yaml_feature h = inr (inr (inl refl))
load_error_code_listed LoadErrorCode.unsupported_format h = inr (inr (inr (inl refl)))
load_error_code_listed LoadErrorCode.non_json_value h = inr (inr (inr (inr (inl refl))))
load_error_code_listed LoadErrorCode.invalid_unicode h = inr (inr (inr (inr (inr (inl refl)))))
load_error_code_listed LoadErrorCode.invalid_numeric_syntax h =
    inr (inr (inr (inr (inr (inr (inl refl))))))
load_error_code_listed LoadErrorCode.invalid_boolean_syntax h =
    inr (inr (inr (inr (inr (inr (inr (inl refl)))))))
load_error_code_listed LoadErrorCode.invalid_null_syntax h =
    inr (inr (inr (inr (inr (inr (inr (inr (inl refl))))))))
load_error_code_listed LoadErrorCode.numeric_value_out_of_range h =
    inr (inr (inr (inr (inr (inr (inr (inr (inr (inl refl)))))))))
load_error_code_listed LoadErrorCode.structural_validation (h, g) = absurd (h refl)
load_error_code_listed LoadErrorCode.semantic_validation h =
    inr (inr (inr (inr (inr (inr (inr (inr (inr (inr (inl refl))))))))))
load_error_code_listed LoadErrorCode.cel_profile_error h =
    inr (inr (inr (inr (inr (inr (inr (inr (inr (inr (inr (inl refl)))))))))))
load_error_code_listed LoadErrorCode.invalid_binding h =
    inr (inr (inr (inr (inr (inr (inr (inr (inr (inr (inr (inr (inl refl))))))))))))
load_error_code_listed LoadErrorCode.destroyed_variable_write h =
    inr (inr (inr (inr (inr (inr (inr (inr (inr (inr (inr (inr (inr (inl refl)))))))))))))
load_error_code_listed LoadErrorCode.destroyed_reference_binding h =
    inr (inr (inr (inr (inr (inr (inr (inr (inr (inr (inr (inr (inr (inr (inl refl))))))))))))))
load_error_code_listed LoadErrorCode.root_reentry h =
    inr
      (inr (inr (inr (inr (inr (inr (inr (inr (inr (inr (inr (inr (inr (inr (inl refl)))))))))))))))
load_error_code_listed LoadErrorCode.root_local_transition h = inr (
    inr (
      inr (inr (inr (inr (inr (inr (inr (inr (inr (inr (inr (inr (inr (inr (inl refl))))))))))))))))
load_error_code_listed LoadErrorCode.runtime_provider_unavailable (g, h) = absurd (h refl)

load_error_code-not_structural_validation :
    (c : LoadErrorCode)
    → Elem c load_error_code_portable_codes
    → c ≢ LoadErrorCode.structural_validation
unfolding load_error_code_portable_codes
load_error_code-not_structural_validation c (inl k) e = cc
load_error_code-not_structural_validation c (inr (inl k)) e = cc
load_error_code-not_structural_validation c (inr (inr (inl k))) e = cc
load_error_code-not_structural_validation c (inr (inr (inr (inl k)))) e = cc
load_error_code-not_structural_validation c (inr (inr (inr (inr (inl k))))) e = cc
load_error_code-not_structural_validation c (inr (inr (inr (inr (inr (inl k)))))) e = cc
load_error_code-not_structural_validation c (inr (inr (inr (inr (inr (inr (inl k))))))) e = cc
load_error_code-not_structural_validation c (inr (inr (inr (inr (inr (inr (inr (inl k)))))))) e = cc
load_error_code-not_structural_validation c (inr (inr (inr (inr (inr (inr (inr (inr (inl k)))))))))
      e =
    cc
load_error_code-not_structural_validation c
      (inr (inr (inr (inr (inr (inr (inr (inr (inr (inl k)))))))))) e =
    cc
load_error_code-not_structural_validation c
      (inr (inr (inr (inr (inr (inr (inr (inr (inr (inr (inl k))))))))))) e =
    cc
load_error_code-not_structural_validation c
      (inr (inr (inr (inr (inr (inr (inr (inr (inr (inr (inr (inl k)))))))))))) e =
    cc
load_error_code-not_structural_validation c
      (inr (inr (inr (inr (inr (inr (inr (inr (inr (inr (inr (inr (inl k))))))))))))) e =
    cc
load_error_code-not_structural_validation c
      (inr (inr (inr (inr (inr (inr (inr (inr (inr (inr (inr (inr (inr (inl k)))))))))))))) e =
    cc
load_error_code-not_structural_validation c
      (inr (inr (inr (inr (inr (inr (inr (inr (inr (inr (inr (inr (inr (inr (inl k)))))))))))))))
      e =
    cc
load_error_code-not_structural_validation c
      (inr
        (inr (inr (inr (inr (inr (inr (inr (inr (inr (inr (inr (inr (inr (inr (inl k))))))))))))))))
      e =
    cc
load_error_code-not_structural_validation c
      (inr (
        inr (
          inr
            (inr (inr (inr (inr (inr (inr (inr (inr (inr (inr (inr (inr (inr (inl k)))))))))))))))))
      e =
    cc
load_error_code-not_structural_validation c
      (inr (
        inr (
          inr
            (inr (inr (inr (inr (inr (inr (inr (inr (inr (inr (inr (inr (inr (inr x)))))))))))))))))
      e =
    elim x [ ]

load_error_code-not_runtime_provider_unavailable :
    (c : LoadErrorCode)
    → Elem c load_error_code_portable_codes
    → c ≢ LoadErrorCode.runtime_provider_unavailable
unfolding load_error_code_portable_codes
load_error_code-not_runtime_provider_unavailable c (inl k) e = cc
load_error_code-not_runtime_provider_unavailable c (inr (inl k)) e = cc
load_error_code-not_runtime_provider_unavailable c (inr (inr (inl k))) e = cc
load_error_code-not_runtime_provider_unavailable c (inr (inr (inr (inl k)))) e = cc
load_error_code-not_runtime_provider_unavailable c (inr (inr (inr (inr (inl k))))) e = cc
load_error_code-not_runtime_provider_unavailable c (inr (inr (inr (inr (inr (inl k)))))) e = cc
load_error_code-not_runtime_provider_unavailable c (inr (inr (inr (inr (inr (inr (inl k))))))) e =
    cc
load_error_code-not_runtime_provider_unavailable c (inr (inr (inr (inr (inr (inr (inr (inl k))))))))
      e =
    cc
load_error_code-not_runtime_provider_unavailable c
      (inr (inr (inr (inr (inr (inr (inr (inr (inl k))))))))) e =
    cc
load_error_code-not_runtime_provider_unavailable c
      (inr (inr (inr (inr (inr (inr (inr (inr (inr (inl k)))))))))) e =
    cc
load_error_code-not_runtime_provider_unavailable c
      (inr (inr (inr (inr (inr (inr (inr (inr (inr (inr (inl k))))))))))) e =
    cc
load_error_code-not_runtime_provider_unavailable c
      (inr (inr (inr (inr (inr (inr (inr (inr (inr (inr (inr (inl k)))))))))))) e =
    cc
load_error_code-not_runtime_provider_unavailable c
      (inr (inr (inr (inr (inr (inr (inr (inr (inr (inr (inr (inr (inl k))))))))))))) e =
    cc
load_error_code-not_runtime_provider_unavailable c
      (inr (inr (inr (inr (inr (inr (inr (inr (inr (inr (inr (inr (inr (inl k)))))))))))))) e =
    cc
load_error_code-not_runtime_provider_unavailable c
      (inr (inr (inr (inr (inr (inr (inr (inr (inr (inr (inr (inr (inr (inr (inl k)))))))))))))))
      e =
    cc
load_error_code-not_runtime_provider_unavailable c
      (inr
        (inr (inr (inr (inr (inr (inr (inr (inr (inr (inr (inr (inr (inr (inr (inl k))))))))))))))))
      e =
    cc
load_error_code-not_runtime_provider_unavailable c
      (inr (
        inr (
          inr
            (inr (inr (inr (inr (inr (inr (inr (inr (inr (inr (inr (inr (inr (inl k)))))))))))))))))
      e =
    cc
load_error_code-not_runtime_provider_unavailable c
      (inr (
        inr (
          inr
            (inr (inr (inr (inr (inr (inr (inr (inr (inr (inr (inr (inr (inr (inr x)))))))))))))))))
      e =
    elim x [ ]

load_error_code-IsRegistry :
    IsRegistry load_error_code_as_str load_error_code_portable_codes (λ c.
      c ≢ LoadErrorCode.structural_validation × c ≢ LoadErrorCode.runtime_provider_unavailable)
load_error_code-IsRegistry = (
  λ c. (
    λ m. (
      load_error_code-not_structural_validation c m,
      load_error_code-not_runtime_provider_unavailable c m,
    ),
    load_error_code_listed c,
  ),
  distinct_of_inverse load_error_code_as_str load_error_code_of load_error_code_of-as_str,
)

abbrev pub LoadingCodes : Type 0
LoadingCodes =
    IsRegistry load_error_code_as_str load_error_code_portable_codes (λ c.
      c ≢ LoadErrorCode.structural_validation × c ≢ LoadErrorCode.runtime_provider_unavailable)

-- The registry lists every refusal of a machine document but a failed structural validation and a missing
-- runtime provider, and no other, and the texts tell the codes apart.
pub loading_codes-IsRegistry : LoadingCodes
loading_codes-IsRegistry = (load_error_code-IsRegistry)
