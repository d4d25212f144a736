-- ===== src/Error/Laws.antt =====
-- The names of the error types, as `Display` prints them.
use openid4vp.Common.{String, ◌≡◌, refl, sym, ap, ◌∙◌, List, [], ◌∷◌, ◌==◌, string_eq}
use openid4vp.Common.{if◌then◌else◌}
use openid4vp.Error.{
  ErrorType, show_type, invalid_scope, invalid_request, invalid_client, access_denied,
  vp_formats_not_supported, invalid_presentation_definition_uri,
  invalid_presentation_definition_reference, invalid_presentation_definition_format,
  invalid_request_uri_method, wallet_unavailable, invalid_dcql_format, client_id_prefix_not_given,
  invalid_transaction_data, wrong_client_id_prefix,
}

-- Every error type.
abbrev error_types : List ErrorType
error_types =
    invalid_scope ∷ invalid_request ∷ invalid_client ∷ access_denied ∷ vp_formats_not_supported
    ∷ invalid_presentation_definition_uri ∷ invalid_presentation_definition_reference
    ∷ invalid_presentation_definition_format ∷ invalid_request_uri_method ∷ wallet_unavailable
    ∷ invalid_dcql_format ∷ client_id_prefix_not_given ∷ invalid_transaction_data
    ∷ wrong_client_id_prefix ∷ []

-- The error type that a name is printed for.
type_named : List ErrorType → String → ErrorType
type_named [] s = invalid_scope
type_named (t ∷ ts) s = if show_type t == s then t else type_named ts s

type_named-show_type : (t : ErrorType) → type_named error_types (show_type t) ≡ t
unfolding type_named show_type
type_named-show_type invalid_scope = refl
type_named-show_type _ = refl

-- Two error types with the same printed name are the same error type.
pub show_type_injective : (a b : ErrorType) → show_type a ≡ show_type b → a ≡ b
show_type_injective a b e =
    sym (type_named-show_type a) ∙ ap (type_named error_types) e ∙ type_named-show_type b
