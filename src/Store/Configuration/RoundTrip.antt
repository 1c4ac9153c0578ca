-- ===== src/Store/Configuration/RoundTrip.antt =====
-- The configuration text that names both retention modes is read back as those modes.
use determa_state_rust.Prelude.{
  ℕ, Bool, true, false, none, some, List, [], ◌∷◌, ◌++◌, ◌≡◌, ◌≢◌, refl, ◌∙◌, ap, arith, Text,
  codes,
}
use determa_state_rust.Store.Retention.{
  ReceiptRetentionMode, OutboxRetentionMode, permanent, strict, compact, receipt_as_str,
  outbox_as_str,
}
use determa_state_rust.Store.Configuration.{
  ok, rsplit_once, is_empty, parse_parts, gather, add_option, add_pair, receipt_mode, outbox_mode,
  finish_with, parse_durable_store_configuration_with_options,
}

-- The options that name the modes, in either order.
abbrev pub options_of : Bool → ReceiptRetentionMode → OutboxRetentionMode → Text
options_of true r o =
    codes "receipt_retention="
    ++ (codes (receipt_as_str r) ++ (codes "&outbox_retention=" ++ codes (outbox_as_str o)))
options_of false r o =
    codes "outbox_retention="
    ++ (codes (outbox_as_str o) ++ (codes "&receipt_retention=" ++ codes (receipt_as_str r)))

rsplit_once-append :
    (c : ℕ) (l t : Text) → rsplit_once c t ≡ none → rsplit_once c (l ++ (c ∷ t)) ≡ some (l, t)
rsplit_once-append c [] t h = ground arith
rsplit_once-append c (d ∷ l) t h = rw (rsplit_once-append c l t h) refl

no_hash :
    (first : Bool) (r : ReceiptRetentionMode) (o : OutboxRetentionMode)
    → rsplit_once b'#' (options_of first r o) ≡ none
unfolding receipt_as_str outbox_as_str
no_hash true ReceiptRetentionMode.bounded OutboxRetentionMode.bounded = refl
no_hash true ReceiptRetentionMode.bounded strict = refl
no_hash true ReceiptRetentionMode.bounded compact = refl
no_hash true permanent OutboxRetentionMode.bounded = refl
no_hash true permanent strict = refl
no_hash true permanent compact = refl
no_hash false ReceiptRetentionMode.bounded OutboxRetentionMode.bounded = refl
no_hash false ReceiptRetentionMode.bounded strict = refl
no_hash false ReceiptRetentionMode.bounded compact = refl
no_hash false permanent OutboxRetentionMode.bounded = refl
no_hash false permanent strict = refl
no_hash false permanent compact = refl

nonempty : (l : Text) → l ≢ [] → is_empty l ≡ false
nonempty [] h = absurd (h refl)
nonempty (c ∷ l) h = refl

parts_parse :
    (location : Text) (first : Bool) (r : ReceiptRetentionMode) (o : OutboxRetentionMode)
    (allowed : List Text)
    → is_empty location ≡ false
    → parse_parts allowed (some (location, options_of first r o))
      ≡ ok (location, record { receipt_retention = r; outbox_retention = o }, [])
unfolding parse_parts gather add_option add_pair receipt_mode outbox_mode finish_with receipt_as_str
    outbox_as_str
parts_parse location true ReceiptRetentionMode.bounded OutboxRetentionMode.bounded allowed h =
    rw h refl
parts_parse location true ReceiptRetentionMode.bounded strict allowed h = rw h refl
parts_parse location true ReceiptRetentionMode.bounded compact allowed h = rw h refl
parts_parse location true permanent OutboxRetentionMode.bounded allowed h = rw h refl
parts_parse location true permanent strict allowed h = rw h refl
parts_parse location true permanent compact allowed h = rw h refl
parts_parse location false ReceiptRetentionMode.bounded OutboxRetentionMode.bounded allowed h =
    rw h refl
parts_parse location false ReceiptRetentionMode.bounded strict allowed h = rw h refl
parts_parse location false ReceiptRetentionMode.bounded compact allowed h = rw h refl
parts_parse location false permanent OutboxRetentionMode.bounded allowed h = rw h refl
parts_parse location false permanent strict allowed h = rw h refl
parts_parse location false permanent compact allowed h = rw h refl

-- A configuration that gives a location and names both retention modes, in either order, is read as that
-- location and those modes, with no options of the adapter: for every location that is not empty, also one
-- that contains a `#`, and whatever options the adapter allows.
pub parse_round_trip :
    (location : Text) (first : Bool) (r : ReceiptRetentionMode) (o : OutboxRetentionMode)
    (allowed : List Text)
    → location ≢ []
    → parse_durable_store_configuration_with_options
        (location ++ (b'#' ∷ options_of first r o))
        allowed
      ≡ ok (location, record { receipt_retention = r; outbox_retention = o }, [])
unfolding parse_durable_store_configuration_with_options
parse_round_trip location first r o allowed n =
    ap (parse_parts allowed)
      (rsplit_once-append b'#' location (options_of first r o) (no_hash first r o))
    ∙ parts_parse location first r o allowed (nonempty location n)
