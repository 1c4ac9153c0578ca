-- ===== src/Codes/Checkpoint/StoreErrors.antt =====
-- `StoreErrorCode` of checkpoint/store.rs.
use determa_state_rust.Prelude.{
  String, Option, none, some, List, [], ◌∷◌, ◌≡◌, ◌≢◌, inl, inr, refl, Elem, str_eq, if◌then◌else◌,
}
use determa_state_rust.Codes.{IsRegistry, distinct_of_inverse}
use determa_state_rust.Store.Records.{StoreErrorCode}

-- `StoreErrorCode::as_str`
pub store_error_code_as_str : StoreErrorCode → String
store_error_code_as_str StoreErrorCode.execution_store_failure = "execution_store_failure"
store_error_code_as_str StoreErrorCode.injected_pre_commit_failure = "injected_pre_commit_failure"
store_error_code_as_str StoreErrorCode.invalid_store_scope = "invalid_store_scope"
store_error_code_as_str StoreErrorCode.permanent_processing_failure = "permanent_processing_failure"
store_error_code_as_str StoreErrorCode.response_lost_after_commit = "response_lost_after_commit"
store_error_code_as_str StoreErrorCode.transient_processing_failure = "transient_processing_failure"

-- `StoreErrorCode::PORTABLE_CODES`
pub store_error_code_portable_codes : List StoreErrorCode
store_error_code_portable_codes =
    StoreErrorCode.injected_pre_commit_failure ∷ StoreErrorCode.invalid_store_scope
    ∷ StoreErrorCode.permanent_processing_failure ∷ StoreErrorCode.response_lost_after_commit
    ∷ StoreErrorCode.transient_processing_failure ∷ []

store_error_code_of : String → Option StoreErrorCode
store_error_code_of text =
    if str_eq text "execution_store_failure"
    then some StoreErrorCode.execution_store_failure
    else if str_eq text "injected_pre_commit_failure"
    then some StoreErrorCode.injected_pre_commit_failure
    else if str_eq text "invalid_store_scope"
    then some StoreErrorCode.invalid_store_scope
    else if str_eq text "permanent_processing_failure"
    then some StoreErrorCode.permanent_processing_failure
    else if str_eq text "response_lost_after_commit"
    then some StoreErrorCode.response_lost_after_commit
    else if str_eq text "transient_processing_failure"
    then some StoreErrorCode.transient_processing_failure
    else none

store_error_code_of-as_str :
    (c : StoreErrorCode) → store_error_code_of (store_error_code_as_str c) ≡ some c
unfolding store_error_code_of store_error_code_as_str
store_error_code_of-as_str StoreErrorCode.execution_store_failure = refl
store_error_code_of-as_str StoreErrorCode.injected_pre_commit_failure = refl
store_error_code_of-as_str StoreErrorCode.invalid_store_scope = refl
store_error_code_of-as_str StoreErrorCode.permanent_processing_failure = refl
store_error_code_of-as_str StoreErrorCode.response_lost_after_commit = refl
store_error_code_of-as_str StoreErrorCode.transient_processing_failure = refl

store_error_code_listed :
    (c : StoreErrorCode)
    → c ≢ StoreErrorCode.execution_store_failure
    → Elem c store_error_code_portable_codes
unfolding store_error_code_portable_codes
store_error_code_listed StoreErrorCode.execution_store_failure h = absurd (h refl)
store_error_code_listed StoreErrorCode.injected_pre_commit_failure h = inl refl
store_error_code_listed StoreErrorCode.invalid_store_scope h = inr (inl refl)
store_error_code_listed StoreErrorCode.permanent_processing_failure h = inr (inr (inl refl))
store_error_code_listed StoreErrorCode.response_lost_after_commit h = inr (inr (inr (inl refl)))
store_error_code_listed StoreErrorCode.transient_processing_failure h =
    inr (inr (inr (inr (inl refl))))

store_error_code_unlisted :
    (c : StoreErrorCode)
    → Elem c store_error_code_portable_codes
    → c ≢ StoreErrorCode.execution_store_failure
unfolding store_error_code_portable_codes
store_error_code_unlisted c (inl k) e = cc
store_error_code_unlisted c (inr (inl k)) e = cc
store_error_code_unlisted c (inr (inr (inl k))) e = cc
store_error_code_unlisted c (inr (inr (inr (inl k)))) e = cc
store_error_code_unlisted c (inr (inr (inr (inr (inl k))))) e = cc
store_error_code_unlisted c (inr (inr (inr (inr (inr x))))) e = elim x [ ]

-- The portable codes are all but the adapter's own failure, and the texts tell all codes apart.
pub store_error_code-IsRegistry :
    IsRegistry store_error_code_as_str store_error_code_portable_codes
      (λ c. c ≢ StoreErrorCode.execution_store_failure)
store_error_code-IsRegistry = (
  λ c. (store_error_code_unlisted c, store_error_code_listed c),
  distinct_of_inverse store_error_code_as_str store_error_code_of store_error_code_of-as_str,
)
