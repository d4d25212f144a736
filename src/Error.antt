-- ===== src/Error.antt =====
-- core/error.rs: the errors of the protocol and of the program.
pub mod Laws
use mathlib.Core.Option as O
use openid4vp.Common.{
  String, ◌<>◌, Bool, Option, none, some, Anyhow, [], ◌∷◌, if◌then◌else◌, Result, map_err,
}

pub data ErrorType : Type 0 where
  invalid_scope invalid_request invalid_client access_denied : ErrorType
  vp_formats_not_supported invalid_presentation_definition_uri : ErrorType
  invalid_presentation_definition_reference invalid_presentation_definition_format : ErrorType
  invalid_request_uri_method wallet_unavailable invalid_dcql_format : ErrorType
  client_id_prefix_not_given invalid_transaction_data wrong_client_id_prefix : ErrorType

-- `source` is an `anyhow::Error`.
pub record ProtocolError : Type 0 where
  pub type : ErrorType
  pub description : Option String
  pub state : Option String
  pub source : Option Anyhow

pub data Error : Type 0 where
  internal : Anyhow → Error
  protocol_error : ProtocolError → Error

unfoldable pub protocol : ErrorType → String → Option String → Error
protocol error_type description state =
    protocol_error
      (record { type = error_type; description = some description; state = state; source = none })

unfoldable pub protocol_invalid_req : String → Option String → Error
protocol_invalid_req description state = protocol_error (record {
  type = invalid_request;
  description = some description;
  state = state;
  source = none;
})

unfoldable pub protocol_vp_formats_not_supported : String → Option String → Error
protocol_vp_formats_not_supported description state = protocol_error (record {
  type = vp_formats_not_supported;
  description = some description;
  state = state;
  source = none;
})

unfoldable pub protocol_access_denied : String → Option String → Error
protocol_access_denied description state =
    protocol_error (record {
      type = access_denied;
      description = some description;
      state = state;
      source = none;
    })

unfoldable pub add_source : Anyhow → Error → Error
add_source source (internal e) = internal e
add_source source (protocol_error e) = protocol_error (record e { source = some source })

-- `Display for ErrorType`
unfoldable pub show_type : ErrorType → String
show_type invalid_scope = "invalid_scope"
show_type invalid_request = "invalid_request"
show_type invalid_client = "invalid_client"
show_type access_denied = "access_denied"
show_type vp_formats_not_supported = "vp_formats_not_supported"
show_type invalid_presentation_definition_uri = "invalid_presentation_definition_uri"
show_type invalid_presentation_definition_reference = "invalid_presentation_definition_reference"
show_type invalid_presentation_definition_format = "invalid_presentation_definition_format"
show_type invalid_request_uri_method = "invalid_request_uri_method"
show_type wallet_unavailable = "wallet_unavailable"
show_type invalid_dcql_format = "invalid_dcql_format"
show_type client_id_prefix_not_given = "client_id_prefix_not_given"
show_type wrong_client_id_prefix = "wrong_client_id_prefix"
show_type invalid_transaction_data = "invalid_transaction_data"

-- `Display for anyhow::Error`: the outermost message.
unfoldable pub show_anyhow : Anyhow → String
show_anyhow [] = ""
show_anyhow (message ∷ _) = message

-- The description that is displayed; in a debug build it holds the source.
unfoldable pub show_description : Bool → ProtocolError → String
unfolding show_anyhow
show_description debug_assertions e =
    let description = O.get_or e.description "" in
    elim e.source [
      | none ↦ description
      | some source ↦
          if debug_assertions then description <> ": " <> show_anyhow source else description
    ]

-- `Display for ProtocolError`
unfoldable pub show_protocol_error : Bool → ProtocolError → String
unfolding show_type show_description
show_protocol_error debug_assertions e =
    show_type e.type <> ":" <> show_description debug_assertions e <> ":" <> O.get_or e.state ""

-- `Display for Error`
unfoldable pub show : Bool → Error → String
unfolding show_anyhow show_protocol_error
show debug_assertions (internal e) = show_anyhow e
show debug_assertions (protocol_error e) = show_protocol_error debug_assertions e

-- `Context::context` on a result with an `Error`, and `?` in a function that returns one.
abbrev pub with_context {ℓ} : {A : Type ℓ} → Bool → String → Result Error A → Result Error A
with_context debug_assertions message =
    map_err (λ e. internal (message ∷ show debug_assertions e ∷ []))
