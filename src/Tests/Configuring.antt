-- ===== src/Tests/Configuring.antt =====
-- The configuration of a durable store at concrete texts.
use determa_state_rust.Prelude.{List, [], ◌∷◌, ◌++◌, ◌≡◌, true, refl, Text, codes}
use determa_state_rust.Store.Retention.{permanent, strict}
use determa_state_rust.Store.Configuration.{
  Configuration, ok, refused, duplicate_option, parse_durable_store_configuration_with_options,
}
use determa_state_rust.Store.Configuration.RoundTrip.{options_of, parse_round_trip}
use determa_state_rust.Store.Configuration.Accepted.{IsAccepted, parse-IsAccepted}

abbrev location : Text
location = codes "a#b.db"

abbrev schema_allowed : List Text
schema_allowed = codes "schema" ∷ []

parse_round_trip_example :
    parse_durable_store_configuration_with_options
      (location ++ (b'#' ∷ options_of true permanent strict))
      schema_allowed
    ≡ ok (location, record { receipt_retention = permanent; outbox_retention = strict }, [])
parse_round_trip_example = parse_round_trip location true permanent strict schema_allowed (λ e. cc)

abbrev with_schema : Text
with_schema = codes "pg#receipt_retention=permanent&schema=s&outbox_retention=strict"

abbrev parsed_schema : Configuration
parsed_schema = (
  codes "pg",
  record { receipt_retention = permanent; outbox_retention = strict },
  (codes "schema", codes "s") ∷ [],
)

schema_parses :
    parse_durable_store_configuration_with_options with_schema schema_allowed ≡ ok parsed_schema
unfolding parse_durable_store_configuration_with_options
schema_parses = refl

repeated_schema_refused :
    parse_durable_store_configuration_with_options (codes "pg#schema=s&schema=t") schema_allowed
    ≡ refused (duplicate_option (codes "schema"))
unfolding parse_durable_store_configuration_with_options
repeated_schema_refused = refl

parse-IsAccepted_example : IsAccepted schema_allowed parsed_schema
parse-IsAccepted_example = parse-IsAccepted with_schema schema_allowed parsed_schema schema_parses
