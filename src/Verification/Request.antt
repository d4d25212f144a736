-- ===== src/Verification/Request.antt =====
-- core/authorization_request/verification/mod.rs: `RequestVerifier` and `verify_request`.
pub mod Laws
use mathlib.Core.Option as O
use openid4vp.Common.{
  String, ◌<>◌, Bool, true, false, not, List, [], ◌∷◌, is_empty, any, contains, Option, none, some,
  Result, ok, err, Anyhow, ◌>>=◌, ◌>>◌, map_err, map_ok, context, ok_or, result_or, transpose,
  string_eq, ◌==◌, if◌then◌else◌,
}
use openid4vp.Common.Dict
use openid4vp.Json.{Json, string, array, items, of_items}
use openid4vp.Error.{
  Error, internal, protocol_invalid_req, protocol_access_denied, protocol_vp_formats_not_supported,
  add_source,
}
use openid4vp.Object.{UntypedObject, TypedParameter, get, get_or_default, parsing_error}
use openid4vp.Parameters.Prefix
use openid4vp.Parameters.Prefix.{
  ClientIdPrefix, prefix_eq, decentralized_identifier, openid_federation, pre_registered,
  redirect_uri, verifier_attestation, origin, x509_san_dns, x509_hash,
}
use openid4vp.Parameters.ResponseMode
use openid4vp.Parameters.ResponseMode.{ResponseMode, mode_eq}
use openid4vp.Parameters.ResponseType
use openid4vp.Parameters.ResponseType.{ResponseType, type_eq}
use openid4vp.CredentialFormat.Designation
use openid4vp.CredentialFormat.Designation.{ClaimFormatDesignation, designation_eq}
use openid4vp.CredentialFormat.Payload.{ClaimFormatPayload, ClaimFormatMap, contains_payload}
use openid4vp.AuthorizationRequest.Typed
use openid4vp.AuthorizationRequest.Typed.{Serde}
use openid4vp.AuthorizationRequest.Object.{
  AuthorizationRequestObject, PresentationQuery, lift, read_state, try_from,
}
use openid4vp.Verification.Metadata.{WalletMetadata, MetadataSerde}
use openid4vp.Verification.Validation.{validate_request_against_metadata}

-- What an application implements: `Wallet::metadata`, and the methods of `RequestVerifier`.
pub record Wallet : Type 0 where
  pub metadata : WalletMetadata
  pub decentralized_identifier : AuthorizationRequestObject → String → Result Error (Unit {0})
  pub openid_federation : AuthorizationRequestObject → String → Result Error (Unit {0})
  pub preregistered : AuthorizationRequestObject → String → Result Error (Unit {0})
  pub redirect_uri : AuthorizationRequestObject → String → Result Error (Unit {0})
  pub verifier_attestation : AuthorizationRequestObject → String → Result Error (Unit {0})
  pub origin : AuthorizationRequestObject → String → Result Error (Unit {0})
  pub x509_san_dns : AuthorizationRequestObject → String → Result Error (Unit {0})
  pub x509_hash : AuthorizationRequestObject → String → Result Error (Unit {0})
  pub redirect_uri_jwt : AuthorizationRequestObject → String → Result Error (Unit {0})

pub data FetchedAuthorizationRequest : Type 0 where
  unverified_jwt : String → FetchedAuthorizationRequest
  plain : AuthorizationRequestObject → FetchedAuthorizationRequest

module _ (s : Serde) where
  -- The default body of a method of `RequestVerifier`.
  unfoldable pub not_supported :
      String → AuthorizationRequestObject → String → Result Error (Unit {0})
  unfolding read_state
  not_supported name request jwt = err (
      protocol_access_denied ("'" <> name <> "' client verification is not supported")
        (read_state s request.inner))

  -- The default body of `redirect_uri_jwt`; `split_jws` gives the signature of a JWT.
  unfoldable pub default_redirect_uri_jwt :
      (String → Result Anyhow String)
      → (AuthorizationRequestObject → String → Result Error (Unit {0}))
      → AuthorizationRequestObject
      → String
      → Result Error (Unit {0})
  unfolding read_state
  default_redirect_uri_jwt split_jws verify_uri request jwt = do
    signature ←
        map_err
          (λ e.
            add_source e
              (protocol_invalid_req "unable to decode Authorization Request Object JWT" none))
          (split_jws jwt)
    if not (signature == "")
        then err (
            protocol_invalid_req
              "Client id prefix 'redirect_uri' can not be used in signed auth requests"
              (read_state s request.inner))
        else elim request.return_uri [
          | some url ↦ verify_uri request url
          | none ↦
              err (internal ("redirect_uri_jwt was called for a request without return_uri" ∷ []))
        ]

  -- A wallet that keeps the default body of every method.
  unfoldable pub default_wallet : (String → Result Anyhow String) → WalletMetadata → Wallet
  unfolding not_supported default_redirect_uri_jwt
  default_wallet split_jws metadata = record {
    metadata = metadata;
    decentralized_identifier = not_supported "decentralized_identifier";
    openid_federation = not_supported "openid_federation";
    preregistered = not_supported "preregistered";
    redirect_uri = not_supported "redirect_uri";
    verifier_attestation = not_supported "verifier_attestation";
    origin = not_supported "origin";
    x509_san_dns = not_supported "x509_san_dns";
    x509_hash = not_supported "x509_hash";
    redirect_uri_jwt = default_redirect_uri_jwt split_jws (not_supported "redirect_uri");
  }

  -- The method of `RequestVerifier` for the prefix of the client identifier.
  unfoldable pub verify_prefix :
      Wallet → ClientIdPrefix → AuthorizationRequestObject → String → Result Error (Unit {0})
  verify_prefix wallet decentralized_identifier = wallet.decentralized_identifier
  verify_prefix wallet openid_federation = wallet.openid_federation
  verify_prefix wallet pre_registered = wallet.preregistered
  verify_prefix wallet verifier_attestation = wallet.verifier_attestation
  verify_prefix wallet origin = wallet.origin
  verify_prefix wallet x509_san_dns = wallet.x509_san_dns
  verify_prefix wallet x509_hash = wallet.x509_hash
  verify_prefix wallet redirect_uri = wallet.redirect_uri_jwt

  unfoldable pub verify_plain : Wallet → AuthorizationRequestObject → Result Error (Unit {0})
  unfolding read_state
  verify_plain wallet request = elim request.return_uri [
    | some uri ↦ wallet.redirect_uri request uri
    | none ↦
        if request.response_mode == ResponseMode.dc_api
        then ok tt
        else if request.response_mode == ResponseMode.dc_api_jwt
        then ok tt
        else err (
            protocol_invalid_req
              ("'response_uri/redirect_uri' is required when response_mode is '"
                <> ResponseMode.into_string request.response_mode
                <> "'")
              (read_state s request.inner))
  ]

  -- `decode_unverified` reads the claims of a JWT, without a check of its signature.
  unfoldable pub fetch_and_verify :
      (String → Result Anyhow UntypedObject)
      → Wallet
      → FetchedAuthorizationRequest
      → Result Error AuthorizationRequestObject
  unfolding verify_plain verify_prefix try_from
  fetch_and_verify decode_unverified wallet (plain request) = do
    _ ← verify_plain wallet request
    ok request
  fetch_and_verify decode_unverified wallet (unverified_jwt jwt) = do
    claims ←
        map_err
          (λ e.
            add_source e
              (protocol_invalid_req "unable to decode Authorization Request Object JWT" none))
          (decode_unverified jwt)
    request ← try_from s claims
    _ ← verify_prefix wallet request.client_id.prefix request jwt
    ok request

module _ (s : Serde) (ms : MetadataSerde) where
  unfoldable pub verify_request :
      (String → Result Anyhow UntypedObject)
      → Wallet
      → FetchedAuthorizationRequest
      → Result Error AuthorizationRequestObject
  unfolding fetch_and_verify validate_request_against_metadata
  verify_request decode_unverified wallet fetched = do
    request ← fetch_and_verify s decode_unverified wallet fetched
    _ ← validate_request_against_metadata s ms wallet.metadata request
    ok request
