-- ===== src/AuthorizationRequest/Signed.antt =====
-- core/authorization_request/mod.rs: `SignedAuthorizationRequest`, a request object that is passed
-- by value or by reference.
pub mod Parsing
pub mod Laws
use mathlib.Core.Option as O
use openid4vp.Common.{
  ℕ, String, ◌<>◌, Bool, not, List, [], ◌∷◌, Option, none, some, Result, ok, err, Anyhow, ◌>>=◌,
  map_err, map_ok, transpose, ◌==◌, string_eq, if◌then◌else◌,
}
use openid4vp.Error.{Error, internal, protocol, protocol_invalid_req, invalid_request, show_anyhow}
use openid4vp.Http
use openid4vp.Http.{
  Http, HttpResponse, is_success, create_get_request, create_post_request, mime_type_oauth_req_jwt,
  mime_type_form_urlencoded,
}
use openid4vp.Object.{UntypedObject, get}
use openid4vp.Parameters.Algorithms
use openid4vp.Parameters.Algorithms.{HttpMethodForAuth}
use openid4vp.Parameters.ClientId
use openid4vp.Parameters.ResponseMode.{ResponseMode}
use openid4vp.AuthorizationRequest.Typed
use openid4vp.AuthorizationRequest.Typed.{Serde}
use openid4vp.AuthorizationRequest.Object.{AuthorizationRequestObject, lift, read_state, try_from}
use openid4vp.Verification.Metadata.{WalletMetadata, MetadataSerde}
use openid4vp.Metadata.Wallet.{into_object}
use openid4vp.Verification.Request.{Wallet, unverified_jwt, verify_request}

pub record RequestReference : Type 0 where
  pub request_uri : String
  pub request_uri_method : Option HttpMethodForAuth

pub data RequestIndirection : Type 0 where
  by_value : String → RequestIndirection
  by_reference : RequestReference → RequestIndirection

pub record SignedAuthorizationRequest : Type 0 where
  pub client_id : String
  pub request_indirection : RequestIndirection

-- The wallet as a client of the network: `generate_nonce` and `validate_nonce` of the trait
-- `Wallet`, an object as JSON that is encoded for a form, and the claims of a JWT that is not verified.
pub record WalletClient : Type 0 where
  pub http : Http
  pub generate_nonce : Result Anyhow (Option String)
  pub validate_nonce : String → Result Anyhow Bool
  pub encode_object : UntypedObject → Result Anyhow String
  pub decode_unverified : String → Result Anyhow UntypedObject

unfoldable pub http_resp_to_unverified_jwt : Http → HttpResponse → Result Error String
http_resp_to_unverified_jwt http resp =
    if not (is_success resp)
    then err (internal ("failed to get authorization request object" ∷ []))
    else map_err
        (λ e. internal (("cannot parse authorization request object: " <> show_anyhow e) ∷ []))
        (http.from_utf8 resp.body)

-- The body of the request for the request object.
unfoldable pub form_body : String → Result Anyhow (Option String) → String
form_body metadata (ok (some nonce)) = "wallet_metadata=" <> metadata <> "&wallet_nonce=" <> nonce
form_body metadata _ = "wallet_metadata=" <> metadata

module _ (s : Serde) (ms : MetadataSerde) (client : WalletClient) (metadata : WalletMetadata) where
  unfoldable pub fetch_by_method : String → HttpMethodForAuth → Result Error HttpResponse
  unfolding create_get_request create_post_request form_body into_object
  fetch_by_method uri Algorithms.get = do
    request ← lift (create_get_request client.http uri mime_type_oauth_req_jwt)
    lift (client.http.execute request)
  fetch_by_method uri Algorithms.post = do
    encoded ← lift (client.encode_object (into_object s ms metadata))
    let body = client.http.as_bytes (form_body encoded client.generate_nonce)
    request ←
        lift (
          create_post_request client.http uri body mime_type_form_urlencoded
            mime_type_oauth_req_jwt)
    lift (client.http.execute request)

  unfoldable pub get_by_reference : RequestReference → Result Error String
  unfolding fetch_by_method http_resp_to_unverified_jwt
  get_by_reference reference = do
    resp ←
        fetch_by_method reference.request_uri (O.get_or reference.request_uri_method Algorithms.get)
    http_resp_to_unverified_jwt client.http resp

  unfoldable pub retrieve_unverified_jwt : RequestIndirection → Result Error String
  unfolding get_by_reference
  retrieve_unverified_jwt (by_value jwt) = ok jwt
  retrieve_unverified_jwt (by_reference reference) = get_by_reference reference

-- What is made of the nonce of the wallet, where there is one.
unfoldable pub check_nonce : WalletClient → Option String → Result Error (Unit {0})
check_nonce client none = ok tt
check_nonce client (some nonce) = lift (client.validate_nonce nonce) >>= λ valid.
    if not valid
    then err (protocol invalid_request "wallet_nonce validation did not pass" none)
    else ok tt

module _ (s : Serde) where
  unfoldable pub validate_nonce :
      WalletClient → AuthorizationRequestObject → Result Error (Unit {0})
  unfolding get check_nonce
  validate_nonce client aro = do
    wallet_nonce ← lift (transpose (get (Typed.wallet_nonce s) aro.inner))
    check_nonce client wallet_nonce

  unfoldable pub resolve_response_uri_and_mode :
      MetadataSerde
      → WalletClient
      → WalletMetadata
      → SignedAuthorizationRequest
      → Result Error (Option String × ResponseMode)
  unfolding retrieve_unverified_jwt try_from validate_nonce
  resolve_response_uri_and_mode ms client metadata request = do
    jwt ← retrieve_unverified_jwt s ms client metadata request.request_indirection
    claims ←
        map_err
          (λ e.
            internal
              (("unable to decode Authorization Request Object JWT: " <> show_anyhow e) ∷ []))
          (client.decode_unverified jwt)
    aro ← try_from s claims
    _ ← validate_nonce client aro
    ok (aro.return_uri, aro.response_mode)

  -- The request object must have the client identifier of the request that it came with.
  unfoldable pub check_client_id : String → AuthorizationRequestObject → Result Error (Unit {0})
  unfolding ClientId.get_full_id read_state
  check_client_id client_id aro =
      if not (client_id == ClientId.get_full_id aro.client_id)
      then err (
          protocol_invalid_req
            ("Authorization Request and Request Object have different client ids: '"
              <> client_id
              <> "' vs. '"
              <> ClientId.get_full_id aro.client_id
              <> "'")
            (read_state s aro.inner))
      else ok tt

  unfoldable pub resolve_auth_request :
      MetadataSerde
      → WalletClient
      → Wallet
      → SignedAuthorizationRequest
      → Result Error AuthorizationRequestObject
  unfolding retrieve_unverified_jwt verify_request validate_nonce check_client_id
  resolve_auth_request ms client wallet request = do
    jwt ← retrieve_unverified_jwt s ms client wallet.metadata request.request_indirection
    aro ← verify_request s ms client.decode_unverified wallet (unverified_jwt jwt)
    _ ← validate_nonce client aro
    _ ← check_client_id request.client_id aro
    ok aro
