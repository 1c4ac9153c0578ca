-- ===== src/Codes/Runtime/Dispositions.antt =====
-- `Disposition` of format1/runtime.rs.
use determa_state_rust.Prelude.{
  String, Option, none, some, List, [], ◌∷◌, ◌≡◌, inl, inr, refl, Elem, str_eq, if◌then◌else◌,
}
use determa_state_rust.Codes.{IsRegistry, distinct_of_inverse}

pub data Disposition : Type 0 where
  handled : Disposition
  deferred : Disposition
  unhandled : Disposition
  not_runnable : Disposition
  rejected : Disposition
  faulted : Disposition

-- `Disposition::as_str`
unfoldable pub disposition_as_str : Disposition → String
disposition_as_str Disposition.handled = "handled"
disposition_as_str Disposition.deferred = "deferred"
disposition_as_str Disposition.unhandled = "unhandled"
disposition_as_str Disposition.not_runnable = "not_runnable"
disposition_as_str Disposition.rejected = "rejected"
disposition_as_str Disposition.faulted = "faulted"

-- `Disposition::PORTABLE_CODES`
pub disposition_portable_codes : List Disposition
disposition_portable_codes =
    Disposition.handled ∷ Disposition.deferred ∷ Disposition.unhandled ∷ Disposition.not_runnable
    ∷ Disposition.rejected ∷ Disposition.faulted ∷ []

disposition_of : String → Option Disposition
disposition_of text =
    if str_eq text "handled"
    then some Disposition.handled
    else if str_eq text "deferred"
    then some Disposition.deferred
    else if str_eq text "unhandled"
    then some Disposition.unhandled
    else if str_eq text "not_runnable"
    then some Disposition.not_runnable
    else if str_eq text "rejected"
    then some Disposition.rejected
    else if str_eq text "faulted"
    then some Disposition.faulted
    else none

disposition_of-as_str : (c : Disposition) → disposition_of (disposition_as_str c) ≡ some c
unfolding disposition_of disposition_as_str
disposition_of-as_str Disposition.handled = refl
disposition_of-as_str Disposition.deferred = refl
disposition_of-as_str Disposition.unhandled = refl
disposition_of-as_str Disposition.not_runnable = refl
disposition_of-as_str Disposition.rejected = refl
disposition_of-as_str Disposition.faulted = refl

disposition_listed : (c : Disposition) → Elem c disposition_portable_codes
unfolding disposition_portable_codes
disposition_listed Disposition.handled = inl refl
disposition_listed Disposition.deferred = inr (inl refl)
disposition_listed Disposition.unhandled = inr (inr (inl refl))
disposition_listed Disposition.not_runnable = inr (inr (inr (inl refl)))
disposition_listed Disposition.rejected = inr (inr (inr (inr (inl refl))))
disposition_listed Disposition.faulted = inr (inr (inr (inr (inr (inl refl)))))

pub disposition-IsRegistry :
    IsRegistry disposition_as_str disposition_portable_codes (λ _. Unit {0})
disposition-IsRegistry = (
  λ c. (λ _. tt, λ _. disposition_listed c),
  distinct_of_inverse disposition_as_str disposition_of disposition_of-as_str,
)
