-- ===== src/Store/Configuration.antt =====
-- `parse_durable_store_configuration_with_options` of checkpoint/store.rs: a location, `#`, and options
-- that are joined by `&`. A text is the list of its bytes.
pub mod RoundTrip
pub mod Accepted
use determa_state_rust.Prelude.{
  ℕ, String, Bool, true, false, not, Option, none, some, List, [], ◌∷◌, ◌==◌, any, if◌then◌else◌,
  Text, codes, text_is,
}
use determa_state_rust.Store.Retention.{
  ReceiptRetentionMode, OutboxRetentionMode, DurableStoreMode, permanent, strict, compact,
}

-- The refusals, which are all of the code `InvalidAdapterConfiguration` and differ in their messages.
pub data Refusal : Type 0 where
  options_required empty_location_or_options not_a_pair : Refusal
  unknown_receipt_retention unknown_outbox_retention : Refusal
  duplicate_option empty_option unknown_option : Text → Refusal
  receipt_retention_required outbox_retention_required : Refusal

-- `Result<A, AdapterError>`
pub data Parsed (A : Type 0) : Type 0 where
  ok : A → Parsed A
  refused : Refusal → Parsed A

infixl 20 ◌>>=◌
abbrev pub ◌>>=◌ : {A B : Type 0} → Parsed A → (A → Parsed B) → Parsed B
ok a >>= f = f a
refused r >>= f = refused r

abbrev pub before : ℕ → Option (Text × Text) → Option (Text × Text)
before c none = none
before c (some (s, t)) = some (c ∷ s, t)

-- `text.split_once(c)`
abbrev pub split_once : ℕ → Text → Option (Text × Text)
split_once c [] = none
split_once c (d ∷ t) = let rest = split_once c t in if d == c then some ([], t) else before d rest

abbrev pub or_here : Bool → Text → Option (Text × Text) → Option (Text × Text)
or_here here t (some r) = some r
or_here true t none = some ([], t)
or_here false t none = none

-- `text.rsplit_once(c)`: at the last `c`
abbrev pub rsplit_once : ℕ → Text → Option (Text × Text)
rsplit_once c [] = none
rsplit_once c (d ∷ t) = or_here (d == c) t (before d (rsplit_once c t))

abbrev pub onto_first : ℕ → List Text → List Text
onto_first c [] = (c ∷ []) ∷ []
onto_first c (s ∷ rest) = (c ∷ s) ∷ rest

-- `text.split(c)`
abbrev pub split : ℕ → Text → List Text
split c [] = [] ∷ []
split c (d ∷ t) = let rest = split c t in if d == c then [] ∷ rest else onto_first d rest

abbrev pub is_empty : Text → Bool
is_empty [] = true
is_empty (c ∷ t) = false

abbrev pub is_given : {A : Type 0} → Option A → Bool
is_given none = false
is_given (some a) = true

abbrev pub names : Text → List Text → Bool
names name l = any (text_is name) l

abbrev pub sets : Text → List (Text × Text) → Bool
sets name l = any (λ o. text_is name o.0) l

-- What the loop over the options has gathered.
pub record Gathered : Type 0 where
  pub receipt_retention : Option ReceiptRetentionMode
  pub outbox_retention : Option OutboxRetentionMode
  pub adapter_options : List (Text × Text)

receipt_mode : Text → Parsed ReceiptRetentionMode
receipt_mode value =
    if text_is value (codes "bounded")
    then ok ReceiptRetentionMode.bounded
    else if text_is value (codes "permanent")
    then ok permanent
    else refused unknown_receipt_retention

outbox_mode : Text → Parsed OutboxRetentionMode
outbox_mode value =
    if text_is value (codes "bounded")
    then ok OutboxRetentionMode.bounded
    else if text_is value (codes "strict")
    then ok strict
    else if text_is value (codes "compact")
    then ok compact
    else refused unknown_outbox_retention

-- An option that the adapter allows.
add_adapter_option : Gathered → Text → Text → Parsed Gathered
add_adapter_option g name value =
    if is_empty value
    then refused (empty_option name)
    else if sets name g.adapter_options
    then refused (duplicate_option name)
    else ok (record g { adapter_options = (name, value) ∷ g.adapter_options })

add_pair : List Text → Gathered → Text → Text → Parsed Gathered
unfolding receipt_mode outbox_mode add_adapter_option
add_pair allowed g name value =
    if text_is name (codes "receipt_retention")
    then (if is_given g.receipt_retention
        then refused (duplicate_option name)
        else (receipt_mode value >>= λ mode. ok (record g { receipt_retention = some mode })))
    else if text_is name (codes "outbox_retention")
    then (if is_given g.outbox_retention
        then refused (duplicate_option name)
        else (outbox_mode value >>= λ mode. ok (record g { outbox_retention = some mode })))
    else if names name allowed
    then add_adapter_option g name value
    else refused (unknown_option name)

add_option : List Text → Gathered → Option (Text × Text) → Parsed Gathered
unfolding add_pair
add_option allowed g none = refused not_a_pair
add_option allowed g (some (name, value)) = add_pair allowed g name value

-- `for option in options.split('&')`
gather : List Text → List Text → Gathered → Parsed Gathered
unfolding add_option
gather allowed [] g = ok g
gather allowed (o ∷ options) g =
    add_option allowed g (split_once b'=' o) >>= λ g'. gather allowed options g'

-- What a configuration says: the location, the mode and the adapter's own options.
abbrev pub Configuration : Type 0
Configuration = Text × DurableStoreMode × List (Text × Text)

finish_with :
    Text
    → Option ReceiptRetentionMode
    → Option OutboxRetentionMode
    → List (Text × Text)
    → Parsed Configuration
finish_with location none outbox options = refused receipt_retention_required
finish_with location (some r) none options = refused outbox_retention_required
finish_with location (some r) (some o) options =
    ok (location, record { receipt_retention = r; outbox_retention = o }, options)

abbrev pub nothing_gathered : Gathered
nothing_gathered = record {
  receipt_retention = none;
  outbox_retention = none;
  adapter_options = [];
}

parse_parts : List Text → Option (Text × Text) → Parsed Configuration
unfolding gather finish_with
parse_parts allowed none = refused options_required
parse_parts allowed (some (location, options)) =
    if is_empty location
    then refused empty_location_or_options
    else if is_empty options
    then refused empty_location_or_options
    else (gather allowed (split b'&' options) nothing_gathered >>= λ g.
        finish_with location g.receipt_retention g.outbox_retention g.adapter_options)

unfoldable pub parse_durable_store_configuration_with_options :
    Text → List Text → Parsed Configuration
unfolding parse_parts
parse_durable_store_configuration_with_options configuration allowed =
    parse_parts allowed (rsplit_once b'#' configuration)
