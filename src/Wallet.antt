-- ===== src/Wallet.antt =====
-- wallet.rs: the provided methods of the trait `Wallet`.
pub mod Laws
use openid4vp.Common.{
  ℕ, String, ◌<>◌, Bool, not, Option, none, some, List, [], ◌∷◌, Result, ok, err, Anyhow, ◌>>=◌,
  context, map_ok, result_or, to_option, if◌then◌else◌,
}
use openid4vp.Common.Dict.{Dict}
use openid4vp.Error.{Error, internal, with_context}
use openid4vp.Http.{
  Http, HttpRequest, HttpResponse, is_success, create_post_request, mime_type_json,
  mime_type_form_urlencoded,
}
use openid4vp.Json.{Json, string, object, end, field}
use openid4vp.Parameters.ResponseMode
use openid4vp.Parameters.ResponseMode.{
  ResponseMode, direct_post, direct_post_jwt, fragment, fragment_jwt, dc_api, dc_api_jwt,
  unsupported,
}
use openid4vp.Utils.{generate_jwt}
use openid4vp.Signer.{Signer, Codec}
use openid4vp.AuthorizationRequest.Typed.{Serde}
use openid4vp.AuthorizationRequest.Object.{AuthorizationRequestObject, lift}
use openid4vp.AuthorizationRequest.Signed.{WalletClient}
use openid4vp.AuthorizationRequest.Url.{Urls, from_url, validate}
use openid4vp.Verification.Metadata.{MetadataSerde}
use openid4vp.Verification.Request
use openid4vp.Response.Token.{ℤ, IdTokenBody, ResponseSerde}
use openid4vp.Response.Authorization.{
  AuthorizationResponse, unencoded, jwt_response, Forms, into_x_www_form_urlencoded,
  jwt_into_x_www_form_urlencoded,
}

-- `set_fragment` of a URL, `from_slice` at `PostRedirection`, which has the URL alone, and a status
-- with its phrase as it is printed.
pub record Submission : Type 0 where
  pub set_fragment : String → String → String
  pub redirect_from_slice : List ℕ → Result Anyhow String
  pub show_status : ℕ → String

module _ (s : Serde) (urls : Urls) (debug_assertions : Bool) where
  unfoldable pub validate_request :
      MetadataSerde
      → WalletClient
      → Request.Wallet
      → String
      → Result Error AuthorizationRequestObject
  unfolding from_url validate
  validate_request ms client wallet url = do
    request ←
        with_context debug_assertions "unable to parse authorization request"
          (from_url s urls url wallet.metadata.authorization_endpoint)
    with_context debug_assertions "unable to validate authorization request"
        (validate s urls ms client wallet request)

-- What is to be done with a response: a request to send, or a URL to go to.
pub data Submitted : Type 0 where
  post_of : HttpRequest → Submitted
  redirect_to : String → Submitted

abbrev fail {ℓ} : {A : Type ℓ} → String → Result Error A
fail message = err (internal (message ∷ []))

module _ (r : ResponseSerde) (forms : Forms) (http : Http) (u : Submission) where
  unfoldable pub post_form : String → Result Anyhow String → Result Error Submitted
  unfolding create_post_request
  post_form response_uri form = do
    text ← lift form
    sent ← lift (
        create_post_request http response_uri (http.as_bytes text) mime_type_form_urlencoded
          mime_type_json)
    ok (post_of sent)

  unfoldable pub to_fragment : String → Result Anyhow String → Result Error Submitted
  to_fragment response_uri form = do
    text ← lift form
    ok (redirect_to (u.set_fragment response_uri text))

  unfoldable pub prepare : String → ResponseMode → AuthorizationResponse → Result Error Submitted
  unfolding post_form to_fragment into_x_www_form_urlencoded jwt_into_x_www_form_urlencoded
  prepare uri direct_post (unencoded a) = post_form uri (into_x_www_form_urlencoded r forms a)
  prepare uri direct_post_jwt (jwt_response a) =
      post_form uri (jwt_into_x_www_form_urlencoded r forms a)
  prepare uri fragment (unencoded a) = to_fragment uri (into_x_www_form_urlencoded r forms a)
  prepare uri fragment_jwt (unencoded a) = to_fragment uri (into_x_www_form_urlencoded r forms a)
  prepare uri dc_api a = fail (
      "in response_mode "
      <> ResponseMode.into_string dc_api
      <> ", authorization response could not be submitted")
  prepare uri dc_api_jwt a = fail (
      "in response_mode "
      <> ResponseMode.into_string dc_api_jwt
      <> ", authorization response could not be submitted")
  prepare uri (unsupported mode) a = fail ("unsupported response_mode " <> mode)
  prepare uri _ _ = fail "unexpected AuthorizationResponse format"

  -- The answer to a response: a URL where it names one.
  unfoldable pub read_answer : HttpResponse → Result Error (Option String)
  unfolding is_success
  read_answer resp =
      if not (is_success resp)
      then fail (
          "error submitting authorization response: status_code="
          <> u.show_status resp.status
          <> ", response_body="
          <> result_or "" (http.from_utf8 resp.body))
      else ok (to_option (u.redirect_from_slice resp.body))

  unfoldable pub finish : Submitted → Result Error (Option String)
  unfolding read_answer
  finish (redirect_to url) = ok (some url)
  finish (post_of sent) = do
    resp ← lift (context "failed to make authorization response request" (http.execute sent))
    read_answer resp

  unfoldable pub submit_response :
      String → ResponseMode → AuthorizationResponse → Result Error (Option String)
  unfolding prepare finish
  submit_response response_uri response_mode response =
      prepare response_uri response_mode response >>= finish

pub record IdTokenParams (Duration : Type 0) : Type 0 where
  pub audience : String
  pub nonce : String
  pub lifetime : Duration
  pub other : Option (Dict String Json)

-- The crate `time`, the clock, and the DID of a DID URL.
pub record Clock (Time Duration : Type 0) : Type 0 where
  pub now_utc : Time
  pub plus : Time → Duration → Time
  pub unix_timestamp : Time → ℤ
  pub did : String → String
  pub to_text : IdTokenBody → Result Anyhow String

module _ {Time Duration Jwk : Type 0} (clock : Clock Time Duration) (codec : Codec Jwk) where
  unfoldable pub id_token_body : String → IdTokenParams Duration → IdTokenBody
  id_token_body did_url params = record {
    issuer = clock.did did_url;
    subject = clock.did did_url;
    audience = params.audience;
    nonce = params.nonce;
    sub_jwk = none;
    issued_at = some (clock.unix_timestamp clock.now_utc);
    expiration_time = clock.unix_timestamp (clock.plus clock.now_utc params.lifetime);
    other = params.other;
  }

  unfoldable pub generate_did_based_id_token :
      String → IdTokenParams Duration → Signer Jwk → Result Anyhow String
  unfolding id_token_body generate_jwt
  generate_did_based_id_token did_url params signer = do
    algorithm ← context "failed to retrieve signing algorithm" signer.alg
    generate_jwt (λ t. codec.url_encode (codec.as_bytes t))
        (λ payload. map_ok codec.url_encode (signer.sign payload))
        (codec.to_text (
          object (
            field "alg" (string algorithm)
              (field "kid" (string did_url) (field "typ" (string "JWT") end)))))
        (clock.to_text (id_token_body did_url params))
