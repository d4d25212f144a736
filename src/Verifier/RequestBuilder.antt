-- ===== src/Verifier/RequestBuilder.antt =====
-- verifier/request_builder.rs: the request that a verifier builds for a wallet.
pub mod Laws
pub mod Returns
pub mod Sent
pub mod Built
pub mod Delivered
use mathlib.Core.Option as O
use openid4vp.Common.{
  String, ◌<>◌, Bool, not, List, [], ◌∷◌, Option, none, some, Result, ok, err, Anyhow, ◌>>=◌,
  map_err, context, option_context, ok_or, transpose, contains, ◌==◌, string_eq, if◌then◌else◌,
}
use openid4vp.Error.{Error, internal, with_context}
use openid4vp.Object.{UntypedObject, TypedParameter, get, insert, remove, parsing_error}
use openid4vp.Parameters.Prefix
use openid4vp.Parameters.Prefix.{ClientIdPrefix}
use openid4vp.Parameters.ClientId
use openid4vp.Parameters.ResponseMode
use openid4vp.Parameters.ResponseMode.{
  ResponseMode, direct_post, direct_post_jwt, fragment, fragment_jwt, dc_api, dc_api_jwt,
  unsupported,
}
use openid4vp.Parameters.ResponseType
use openid4vp.Parameters.ResponseType.{ResponseType, type_eq}
use openid4vp.PresentationDefinition.{PresentationDefinition}
use openid4vp.Dcql.Query.{Dcql}
use openid4vp.AuthorizationRequest.Typed
use openid4vp.AuthorizationRequest.Typed.{Serde}
use openid4vp.AuthorizationRequest.Object.{AuthorizationRequestObject, lift, try_from}
use openid4vp.AuthorizationRequest.Signed.{
  RequestIndirection, by_value, by_reference, SignedAuthorizationRequest,
}
use openid4vp.AuthorizationRequest.Url.{Urls, object_into_url, signed_into_url}
use openid4vp.Verification.Metadata
use openid4vp.Verification.Metadata.{WalletMetadata, MetadataSerde}
use openid4vp.Metadata.Parameters
use openid4vp.Metadata.Wallet.{is_client_id_prefix_supported}
use openid4vp.Verifier.Client.{Client}
use openid4vp.Verifier.Party.{Verifier}
use openid4vp.Verifier.ByReference
use openid4vp.Verifier.ByReference.{ByReference, RequestType, plain, signed_jwt}
use openid4vp.Verifier.Checks.{fail, validate_dcql, validate_presentation_definition}

pub record RequestBuilder : Type 0 where
  pub presentation_definition : Option PresentationDefinition
  pub dcql : Option Dcql
  pub request_parameters : UntypedObject
  pub verifier : Verifier

-- `RequestBuilder::new`, and `Verifier::build_authorization_request`
unfoldable pub new : Verifier → RequestBuilder
new verifier = record {
  presentation_definition = none;
  dcql = none;
  request_parameters = verifier.default_request_params;
  verifier = verifier;
}

unfoldable pub with_presentation_definition :
    RequestBuilder → PresentationDefinition → RequestBuilder
with_presentation_definition b d = record b { presentation_definition = some d }

unfoldable pub with_dcql : RequestBuilder → Dcql → RequestBuilder
with_dcql b d = record b { dcql = some d }

unfoldable pub with_request_parameter {ℓ} :
    {T : Type ℓ} → TypedParameter T → RequestBuilder → T → RequestBuilder
unfolding insert
with_request_parameter p b t = record b { request_parameters = (insert p t b.request_parameters).0 }

-- The endpoint that a mode needs.
unfoldable pub require_endpoint : Option String → ResponseMode → Result Error String
require_endpoint endpoint mode =
    ok_or
      (internal (
        ("submission endpoint is required for '"
          <> ResponseMode.into_string mode
          <> "' response mode")
        ∷ []))
      endpoint

-- The first syntax type of the verifier that the wallet does not support.
unfoldable pub check_syntax_types : WalletMetadata → List String → Result Error (Unit {0})
check_syntax_types w [] = ok tt
check_syntax_types w (t ∷ ts) =
    let rest = check_syntax_types w ts in
    if not (contains w.subject_syntax_types_supported t)
    then fail ("subject syntax type = '" <> t <> "' is not supported by the wallet")
    else rest

module _ (s : Serde) where
  -- A parameter without the Digital Credentials API: the client identifier of a plain request.
  unfoldable pub set_client_id : RequestType → UntypedObject → Result Error UntypedObject
  unfolding remove get
  set_client_id plain o = ok (remove (Typed.client_id s) o).0
  set_client_id (signed_jwt _) o = do
    found ← lift (
        context "error occurred when retrieving expected origins"
          (transpose (get (Typed.expected_origins s) o)))
    _ ← ok_or (internal ("'expected_origins' parameter is missed" ∷ [])) found
    ok o

  unfoldable pub set_dc_api : RequestType → UntypedObject → Result Error UntypedObject
  unfolding remove set_client_id
  set_dc_api request_type o = do
    o' ← set_client_id request_type o
    ok (remove (Typed.redirect_uri s) (remove (Typed.response_uri s) o').0).0

  unfoldable pub set_return_uri :
      Option String → RequestType → UntypedObject → ResponseMode → Result Error UntypedObject
  unfolding require_endpoint insert set_dc_api
  set_return_uri endpoint t o (unsupported r) = fail ("unsupported response_mode: " <> r)
  set_return_uri endpoint t o direct_post = do
    uri ← require_endpoint endpoint direct_post
    ok (insert (Typed.response_uri s) uri o).0
  set_return_uri endpoint t o direct_post_jwt = do
    uri ← require_endpoint endpoint direct_post_jwt
    ok (insert (Typed.response_uri s) uri o).0
  set_return_uri endpoint t o fragment = do
    uri ← require_endpoint endpoint fragment
    ok (insert (Typed.redirect_uri s) uri o).0
  set_return_uri endpoint t o fragment_jwt = do
    uri ← require_endpoint endpoint fragment_jwt
    ok (insert (Typed.redirect_uri s) uri o).0
  set_return_uri endpoint t o dc_api = set_dc_api t o
  set_return_uri endpoint t o dc_api_jwt = set_dc_api t o

  unfoldable pub build_helper :
      Option String → RequestType → UntypedObject → Result Error UntypedObject
  unfolding get set_return_uri
  build_helper endpoint t o = do
    found ← lift (
        context "error occurred when retrieving response mode"
          (transpose (get (Typed.response_mode s) o)))
    mode ← ok_or (internal ("'response_mode' parameter is missed" ∷ [])) found
    set_return_uri endpoint t o mode

  -- The query of the builder, checked and put among the parameters.
  unfoldable pub insert_query :
      Option Dcql → Option PresentationDefinition → UntypedObject → Result Error UntypedObject
  unfolding validate_dcql validate_presentation_definition insert
  insert_query (some d) none o = do _ ← validate_dcql d; ok (insert (Typed.dcql_query s) d o).0
  insert_query none (some d) o = do
    _ ← validate_presentation_definition d
    ok (insert (Typed.presentation_definition s) d o).0
  insert_query _ _ _ = fail "either presentation definition or dcql query must be present"

unfoldable pub check_prefix : WalletMetadata → ClientIdPrefix → Result Error (Unit {0})
unfolding is_client_id_prefix_supported
check_prefix w prefix =
    if not (is_client_id_prefix_supported w prefix)
    then fail
        ("the wallet does not support the client_id_prefix '" <> Prefix.into_string prefix <> "'")
    else ok tt

unfoldable pub indirection : ByReference → String → RequestIndirection
indirection ByReference.false jwt = by_value jwt
indirection (ByReference.true reference) jwt = by_reference reference

module _ (urls : Urls) (debug_assertions : Bool) where
  -- The request as a URL, and as a JWT where it is signed.
  unfoldable pub send :
      Client
      → String
      → AuthorizationRequestObject
      → RequestType
      → Result Error (String × Option String)
  unfolding object_into_url signed_into_url indirection ClientId.get_full_id
  send client endpoint aro plain = do
    url ←
        with_context debug_assertions "unable to generate authorization request URL"
          (object_into_url urls aro endpoint)
    ok (url, none)
  send client endpoint aro (signed_jwt pass_by_reference) = do
    jwt ← lift (client.generate_request_object_jwt aro)
    url ← with_context debug_assertions "unable to generate authorization request URL" (
        signed_into_url urls
          (record {
            client_id = ClientId.get_full_id client.id;
            request_indirection = indirection pass_by_reference jwt;
          })
          endpoint)
    ok (url, some jwt)

module _ (s : Serde) (ms : MetadataSerde) where
  -- The syntax types of an ID token that the verifier names in its metadata.
  unfoldable pub check_id_token : UntypedObject → WalletMetadata → Result Error (Unit {0})
  unfolding get check_syntax_types
  check_id_token o w = do
    given ← lift (
        option_context
          "'client_metadata' is required while building an authorization request with 'vp_token id_token' response type"
          (get (Typed.client_metadata s) o))
    client_metadata ← lift (context "error occurred when retrieving 'client_metadata'" given)
    declared ← lift (
        option_context
          "'subject_syntax_types_supported' is required while building an authorization request with 'vp_token id_token' response type"
          (get (Metadata.subject_syntax_types_supported s ms) client_metadata))
    types ←
        lift (context "error occurred when retrieving 'subject_syntax_types_supported'" declared)
    check_syntax_types w types

  unfoldable pub validate_response_type : UntypedObject → WalletMetadata → Result Error (Unit {0})
  unfolding get check_id_token
  validate_response_type o w = do
    given ← lift (
        option_context "response type is required, see `with_request_parameter`"
          (get (Typed.response_type s) o))
    response_type ← lift (context "error occurred when retrieving response type" given)
    if not (contains w.response_types_supported response_type)
        then fail (
            "response type = '"
            <> ResponseType.into_string response_type
            <> "' is not supported by the wallet")
        else if ResponseType.vp_token_id_token == response_type
        then check_id_token o w
        else ok tt

  -- The parameters of the request, after the checks.
  unfoldable pub build_parameters :
      RequestBuilder → WalletMetadata → RequestType → Result Error UntypedObject
  unfolding insert insert_query validate_response_type check_prefix build_helper
  build_parameters b w t = do
    let named = (insert (Typed.client_id s) b.verifier.client.id b.request_parameters).0
    queried ← insert_query s b.dcql b.presentation_definition named
    _ ← validate_response_type queried w
    _ ← check_prefix w b.verifier.client.prefix
    build_helper s b.verifier.submission_endpoint t queried

  module _ (urls : Urls) (debug_assertions : Bool) where
    unfoldable pub build :
        RequestBuilder → WalletMetadata → RequestType → Result Error (String × Option String)
    unfolding build_parameters try_from get parsing_error send
    build b w t = do
      parameters ← build_parameters b w t
      aro ←
          with_context debug_assertions
            "unable to construct the Authorization Request from provided request parameters"
            (try_from s parameters)
      let endpoint = Parameters.authorization_endpoint s
      url ← lift (parsing_error endpoint (get endpoint w.inner))
      send urls debug_assertions b.verifier.client url aro t
