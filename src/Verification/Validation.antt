-- ===== src/Verification/Validation.antt =====
-- core/authorization_request/verification/mod.rs: a request against the metadata of the wallet.
pub mod Laws
pub mod Fitness
use mathlib.Core.Option as O
use openid4vp.Common.{
  String, ◌<>◌, Bool, true, false, not, List, [], ◌∷◌, is_empty, any, contains, Option, none, some,
  Result, ok, err, Anyhow, ◌>>=◌, ◌>>◌, map_err, map_ok, context, ok_or, result_or, transpose,
  string_eq, ◌==◌, if◌then◌else◌,
}
use openid4vp.Common.Dict
use openid4vp.Json.{Json, string, array, items, of_items}
use openid4vp.Error.{
  Error, internal, protocol_invalid_req, protocol_access_denied, protocol_vp_formats_not_supported,
  add_source,
}
use openid4vp.Object.{UntypedObject, TypedParameter, get, get_or_default, parsing_error}
use openid4vp.Parameters.Prefix
use openid4vp.Parameters.Prefix.{
  ClientIdPrefix, prefix_eq, decentralized_identifier, openid_federation, pre_registered,
  redirect_uri, verifier_attestation, origin, x509_san_dns, x509_hash,
}
use openid4vp.Parameters.ResponseMode
use openid4vp.Parameters.ResponseMode.{ResponseMode, mode_eq}
use openid4vp.Parameters.ResponseType
use openid4vp.Parameters.ResponseType.{ResponseType, type_eq}
use openid4vp.CredentialFormat.Designation
use openid4vp.CredentialFormat.Designation.{ClaimFormatDesignation, designation_eq}
use openid4vp.CredentialFormat.Payload.{ClaimFormatPayload, ClaimFormatMap, contains_payload}
use openid4vp.AuthorizationRequest.Typed
use openid4vp.AuthorizationRequest.Typed.{Serde}
use openid4vp.AuthorizationRequest.Object.{
  AuthorizationRequestObject, PresentationQuery, lift, read_state, try_from,
}
use openid4vp.Verification.Metadata.{
  WalletMetadata, MetadataSerde, client_id_prefixes_supported, subject_syntax_types_supported,
  vp_formats_supported, contains_claim_format_with_payload, describe_formats,
}

module _ (s : Serde) (ms : MetadataSerde) where
  unfoldable pub check_formats :
      ClaimFormatMap → WalletMetadata → Option String → Result Error (Unit {0})
  unfolding contains_claim_format_with_payload describe_formats
  check_formats formats metadata state =
      if is_empty formats
      then err (
          protocol_vp_formats_not_supported
            "the verifier advertised an empty 'vp_formats_supported' object" state)
      else if any (λ e. contains_claim_format_with_payload metadata.vp_formats_supported e.0 e.1)
          formats
      then ok tt
      else err (
          protocol_vp_formats_not_supported
            ("none of the vp formats offered by the verifier are supported: "
              <> describe_formats ms formats)
            state)

  unfoldable pub validate_vp_formats_supported :
      UntypedObject → WalletMetadata → Option String → Result Error (Unit {0})
  unfolding check_formats get parsing_error
  validate_vp_formats_supported client_metadata metadata state =
      elim (parsing_error (vp_formats_supported s ms)
        (get (vp_formats_supported s ms) client_metadata)) [
          | err _ ↦ ok tt
          | ok formats ↦ check_formats formats metadata state
        ]

  -- The syntax types of the verifier, all of which the wallet must support.
  unfoldable pub check_syntax_types :
      List String → WalletMetadata → Option String → Result Error (Unit {0})
  check_syntax_types [] metadata state = ok tt
  check_syntax_types (t ∷ ts) metadata state =
      let rest = check_syntax_types ts metadata state in
      if contains metadata.subject_syntax_types_supported t
      then rest
      else err (protocol_invalid_req ("subject syntax type = '" <> t <> "' is not supported") state)

  unfoldable pub check_id_token :
      AuthorizationRequestObject → WalletMetadata → Option String → Result Error (Unit {0})
  unfolding get check_syntax_types
  check_id_token request metadata state = do
    found ←
        ok_or
          (protocol_invalid_req
            "'client_metadata' is required when response type is 'vp_token id_token'" state)
          (get (Typed.client_metadata s) request.inner)
    client_metadata ← lift (context "error occurred when retrieving 'client_metadata'" found)
    declared ←
        ok_or
          (protocol_invalid_req
            "'subject_syntax_types_supported' is required when response type is 'vp_token id_token'"
            state)
          (get (subject_syntax_types_supported s ms) client_metadata)
    types ←
        lift (context "error occurred when retrieving 'subject_syntax_types_supported'" declared)
    check_syntax_types types metadata state

  unfoldable pub validate_response_type :
      AuthorizationRequestObject → WalletMetadata → Result Error (Unit {0})
  unfolding get check_id_token read_state
  validate_response_type request metadata = do
    let state = read_state s request.inner
    found ←
        ok_or
          (protocol_invalid_req
            "'response_type' is not declared, it is a required parameter of authorization request object"
            state)
          (get (Typed.response_type s) request.inner)
    response_type ← lift (context "error occurred when retrieving response type" found)
    if not (contains metadata.response_types_supported response_type)
        then err (
            protocol_invalid_req
              ("response type = '"
                <> ResponseType.into_string response_type
                <> "' is not supported")
              state)
        else if ResponseType.vp_token_id_token == response_type
        then check_id_token request metadata state
        else ok tt

  -- `ClientMetadata::resolve`
  unfoldable pub resolve_client_metadata : AuthorizationRequestObject → Result Anyhow UntypedObject
  unfolding get
  resolve_client_metadata request =
      O.get_or (get (Typed.client_metadata s) request.inner) (ok (record { map = [] }))

  unfoldable pub check_prefix :
      List ClientIdPrefix → ClientIdPrefix → Option String → Result Error (Unit {0})
  check_prefix prefixes prefix state =
      if contains prefixes prefix
      then ok tt
      else err (
          protocol_invalid_req
            ("wallet does not support client_id_prefix '" <> Prefix.into_string prefix <> "'")
            state)

  unfoldable pub validate_request_against_metadata :
      WalletMetadata → AuthorizationRequestObject → Result Error (Unit {0})
  unfolding get_or_default check_prefix validate_response_type validate_vp_formats_supported
      resolve_client_metadata read_state
  validate_request_against_metadata metadata request = do
    let state = read_state s request.inner
    prefixes ←
        lift
          (get_or_default (client_id_prefixes_supported s ms) (pre_registered ∷ []) metadata.inner)
    _ ← check_prefix prefixes request.client_id.prefix state
    _ ← validate_response_type request metadata
    client_metadata ← lift (resolve_client_metadata request)
    validate_vp_formats_supported client_metadata metadata state
