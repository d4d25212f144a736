-- ===== src/Response/Authorization.antt =====
-- core/response/mod.rs: the response, and its form as `application/x-www-form-urlencoded`.
pub mod Laws
pub mod Lost
use mathlib.Core.Option as O
use openid4vp.Common.{
  ℕ, String, ◌<>◌, Option, none, some, List, [], ◌∷◌, Result, ok, err, Anyhow, ◌>>=◌, map_err, map,
  map_ok, transpose, to_option,
}
use openid4vp.Error.{show_anyhow}
use openid4vp.Json.{Json, string, array, of_items}
use openid4vp.Object.{UntypedObject, TypedParameter, get, parsing_error, result_parsing_error}
use openid4vp.Parameters.Algorithms
use openid4vp.Parameters.Algorithms.{HashAlgorithm}
use openid4vp.PresentationSubmission.Types.{PresentationSubmission}
use openid4vp.AuthorizationRequest.Typed
use openid4vp.AuthorizationRequest.Typed.{Serde}
use openid4vp.Response.Token
use openid4vp.Response.Token.{
  IdToken, VpToken, ResponseSerde, jwt, try_from_string, format_to_string,
}

pub record TransactionDataResponse : Type 0 where
  pub transaction_data_hashes : List String
  pub transaction_data_hashes_alg : Option HashAlgorithm

pub record JsonTransactionDataResponse : Type 0 where
  pub transaction_data_hashes : String
  pub transaction_data_hashes_alg : Option String

pub record JsonEncodedAuthorizationResponse : Type 0 where
  pub vp_token : String
  pub presentation_submission : Option String
  pub id_token : Option String
  pub state : Option String
  pub transaction_data_response : Option JsonTransactionDataResponse

pub record UnencodedAuthorizationResponse : Type 0 where
  pub vp_token : VpToken
  pub presentation_submission : Option PresentationSubmission
  pub id_token : Option IdToken
  pub state : Option String
  pub transaction_data_response : Option TransactionDataResponse

pub record JwtAuthorizationResponse : Type 0 where
  pub response : String

pub data AuthorizationResponse : Type 0 where
  unencoded : UnencodedAuthorizationResponse → AuthorizationResponse
  jwt_response : JwtAuthorizationResponse → AuthorizationResponse

-- `serde_urlencoded` at the two forms of a response.
pub record Forms : Type 0 where
  pub to_string : JsonEncodedAuthorizationResponse → Result Anyhow String
  pub from_bytes : List ℕ → Result Anyhow JsonEncodedAuthorizationResponse
  pub jwt_to_string : JwtAuthorizationResponse → Result Anyhow String
  pub jwt_from_bytes : List ℕ → Result Anyhow JwtAuthorizationResponse

-- `map_err` with an error of its own.
abbrev pub or_fail {ℓ} : {A : Type ℓ} → String → Result Anyhow A → Result Anyhow A
or_fail message = map_err (λ e. message ∷ [])

module _ (r : ResponseSerde) where
  unfoldable pub read_alg : Option String → Result Anyhow (Option HashAlgorithm)
  unfolding Algorithms.try_from
  read_alg none = ok none
  read_alg (some alg) = map_ok some (
      or_fail "failed to convert transaction_data_hashes_alg to HashAlgorithm"
        (Algorithms.try_from alg))

  -- `TryFrom<JsonTransactionDataResponse> for TransactionDataResponse`
  unfoldable pub data_try_from : JsonTransactionDataResponse → Result Anyhow TransactionDataResponse
  unfolding read_alg
  data_try_from value = do
    hashes ←
        or_fail "failed to serialize transaction_data_hashes"
          (r.hashes_from_str value.transaction_data_hashes)
    alg ← read_alg value.transaction_data_hashes_alg
    ok (record { transaction_data_hashes = hashes; transaction_data_hashes_alg = alg })

  -- `TryFrom<TransactionDataResponse> for JsonTransactionDataResponse`: both are printed as JSON,
  -- the algorithm as a text in quotes.
  unfoldable pub data_into_json : TransactionDataResponse → JsonTransactionDataResponse
  unfolding Algorithms.show
  data_into_json value = record {
    transaction_data_hashes =
        r.to_string (array (of_items (map string value.transaction_data_hashes)));
    transaction_data_hashes_alg =
        O.map (λ alg. r.to_string (string (Algorithms.show alg))) value.transaction_data_hashes_alg;
  }

  -- `TryFrom<JsonEncodedAuthorizationResponse> for UnencodedAuthorizationResponse`
  unfoldable pub try_from_encoded :
      JsonEncodedAuthorizationResponse → Result Anyhow UnencodedAuthorizationResponse
  unfolding try_from_string data_try_from result_parsing_error
  try_from_encoded value = do
    vp_token ← or_fail "failed to decode vp token" (r.vp_token_from_str value.vp_token)
    submission ← transpose (O.map r.submission_from_str value.presentation_submission)
    id_token ← transpose (
        O.map (λ text. result_parsing_error (Token.id_token r) (try_from_string r text))
          value.id_token)
    details ← transpose (O.map data_try_from value.transaction_data_response)
    ok (record {
      vp_token = vp_token;
      presentation_submission = submission;
      id_token = id_token;
      state = value.state;
      transaction_data_response = details;
    })

  -- `TryFrom<UnencodedAuthorizationResponse> for JsonEncodedAuthorizationResponse`: a submission
  -- that cannot be printed is left out.
  unfoldable pub into_encoded : UnencodedAuthorizationResponse → JsonEncodedAuthorizationResponse
  unfolding format_to_string jwt data_into_json
  into_encoded value = record {
    vp_token = format_to_string r value.vp_token;
    presentation_submission =
        O.bind value.presentation_submission (λ ps. to_option (r.submission_to_string ps));
    id_token = O.map jwt value.id_token;
    state = value.state;
    transaction_data_response = O.map data_into_json value.transaction_data_response;
  }

  module _ (forms : Forms) where
    -- `UnencodedAuthorizationResponse::into_x_www_form_urlencoded`
    unfoldable pub into_x_www_form_urlencoded :
        UnencodedAuthorizationResponse → Result Anyhow String
    unfolding into_encoded
    into_x_www_form_urlencoded value =
        or_fail
          "failed to encode UnencodedAuthorizationResponse as 'application/x-www-form-urlencoded'"
          (forms.to_string (into_encoded value))

    -- `JwtAuthorizationResponse::into_x_www_form_urlencoded`
    unfoldable pub jwt_into_x_www_form_urlencoded : JwtAuthorizationResponse → Result Anyhow String
    jwt_into_x_www_form_urlencoded value =
        or_fail "failed to encode response as 'application/x-www-form-urlencoded'"
          (forms.jwt_to_string value)

    unfoldable pub from_x_www_form_urlencoded : List ℕ → Result Anyhow AuthorizationResponse
    unfolding try_from_encoded
    from_x_www_form_urlencoded bytes = elim (forms.jwt_from_bytes bytes) [
      | ok value ↦ ok (jwt_response value)
      | err _ ↦ or_fail "failed to construct flat map" (forms.from_bytes bytes) >>= λ value.
          try_from_encoded value >>= λ response. ok (unencoded response)
    ]

  -- A parameter that may be missing.
  unfoldable pub read_optional {ℓ} :
      {T : Type ℓ} → TypedParameter T → UntypedObject → Result Anyhow (Option T)
  unfolding get
  read_optional p o =
      map_err (λ e. ("Error getting " <> p.key <> ": " <> show_anyhow e) ∷ []) (transpose (get p o))

  -- `TryFrom<UntypedObject> for UnencodedAuthorizationResponse`
  unfoldable pub try_from_object :
      Serde → UntypedObject → Result Anyhow UnencodedAuthorizationResponse
  unfolding get parsing_error read_optional
  try_from_object s value = do
    vp_token ← parsing_error (Token.vp_token r) (get (Token.vp_token r) value)
    submission ← read_optional (Token.presentation_submission r) value
    id_token ← read_optional (Token.id_token r) value
    state ← read_optional (Typed.state s) value
    hashes ← read_optional (Token.transaction_data_hashes r) value
    alg ← read_optional (Token.transaction_data_hashes_alg r) value
    ok (record {
      vp_token = vp_token;
      presentation_submission = submission;
      id_token = id_token;
      state = state;
      transaction_data_response =
          O.map
            (λ (hs : List String). record {
              transaction_data_hashes = hs;
              transaction_data_hashes_alg = alg;
            })
            hashes;
    })
