-- ===== src/AuthorizationRequest/Object.antt =====
-- core/authorization_request/mod.rs: `AuthorizationRequestObject` and how it is read.
pub mod Laws
pub mod Matching
use mathlib.Core.Option as O
use openid4vp.Common.{
  String, ◌<>◌, List, [], ◌∷◌, Option, none, some, Result, ok, err, Anyhow, ◌>>=◌, map_err,
  to_option, transpose, result_or, Bool, true, false,
}
use openid4vp.Error
use openid4vp.Error.{
  Error, internal, protocol, protocol_invalid_req, add_source, invalid_dcql_format,
  invalid_presentation_definition_format, invalid_presentation_definition_uri,
}
use openid4vp.Object.{
  UntypedObject, get, get_or_default, insert, parsing_error, result_parsing_error,
}
use openid4vp.Parameters.ClientId.{ClientId}
use openid4vp.Parameters.ResponseMode
use openid4vp.Parameters.ResponseMode.{
  ResponseMode, direct_post, direct_post_jwt, fragment, fragment_jwt, dc_api, dc_api_jwt,
  unsupported,
}
use openid4vp.Parameters.ResponseType
use openid4vp.Parameters.ResponseType.{ResponseType}
use openid4vp.PresentationDefinition.{PresentationDefinition}
use openid4vp.Dcql.Query.{Dcql}
use openid4vp.Utils.NonEmpty.{NonEmptyVec}
use openid4vp.AuthorizationRequest.Typed
use openid4vp.AuthorizationRequest.Typed.{Serde}

pub data PresentationDefinitionIndirection : Type 0 where
  by_value : PresentationDefinition → PresentationDefinitionIndirection
  by_reference : String → PresentationDefinitionIndirection

pub data PresentationQuery : Type 0 where
  dcql : Dcql → PresentationQuery
  presentation_definition : PresentationDefinitionIndirection → PresentationQuery

-- The field `inner` and the parameters that were read from it; `ClientMetadata`, `Nonce` and
-- `ExpectedOrigins` are what they wrap.
pub record AuthorizationRequestObject : Type 0 where
  pub inner : UntypedObject
  pub client_id : ClientId
  pub response_mode : ResponseMode
  pub response_type : ResponseType
  pub presentation_query : PresentationQuery
  pub return_uri : Option String
  pub nonce : String
  pub client_metadata : UntypedObject
  pub expected_origins : Option (NonEmptyVec String)

-- `?` on an `anyhow::Result`, in a function that returns an `Error`.
abbrev pub lift {ℓ} : {A : Type ℓ} → Result Anyhow A → Result Error A
lift = map_err internal

-- `map_err(|e| error.add_source(e))`
abbrev pub with_source {ℓ} : {A : Type ℓ} → Error → Result Anyhow A → Result Error A
with_source error = map_err (λ e. add_source e error)

-- `get::<State>().and_then(|result| result.ok())`
unfoldable pub read_state : Serde → UntypedObject → Option String
unfolding get
read_state s value = O.join (O.map to_option (get (Typed.state s) value))

-- What the first `match` gives: the return URI, the response mode and the expected origins.
abbrev pub Return : Type 0
Return = Option String × ResponseMode × Option (NonEmptyVec String)

abbrev not_with_mode : String → ResponseMode → String
not_with_mode name mode =
    "'" <> name <> "' is required for this '" <> ResponseMode.into_string mode <> "' response mode"

abbrev not_allowed : ResponseMode → String
not_allowed mode =
    "'response_uri/redirect_uri' is not allowed with this '"
    <> ResponseMode.into_string mode
    <> "' response mode"

module _ (s : Serde) (value : UntypedObject) (state : Option String) where
  unfoldable pub read_return_uri : Result Anyhow String → ResponseMode → Result Error Return
  read_return_uri url mode =
      map_err (λ e. add_source e (protocol_invalid_req "could not parse a 'redirect_uri'" state))
        url
      >>= λ u. ok (some u, mode, none)

  unfoldable pub read_origins : ResponseMode → Result Error Return
  unfolding get
  read_origins mode =
      ok (none, mode, O.join (O.map to_option (get (Typed.expected_origins s) value)))

  -- The arms in their order.
  unfoldable pub match_return_uri :
      Option (Result Anyhow String)
      → Option (Result Anyhow String)
      → ResponseMode
      → Result Error Return
  match_return_uri (some uri) none fragment =
      read_return_uri (result_parsing_error (Typed.redirect_uri s) uri) fragment
  match_return_uri (some uri) none fragment_jwt =
      read_return_uri (result_parsing_error (Typed.redirect_uri s) uri) fragment_jwt
  match_return_uri none (some uri) direct_post =
      read_return_uri (result_parsing_error (Typed.response_uri s) uri) direct_post
  match_return_uri none (some uri) direct_post_jwt =
      read_return_uri (result_parsing_error (Typed.response_uri s) uri) direct_post_jwt
  match_return_uri none none dc_api = read_origins dc_api
  match_return_uri none none dc_api_jwt = read_origins dc_api_jwt
  match_return_uri _ _ dc_api = err (protocol_invalid_req (not_allowed dc_api) state)
  match_return_uri _ _ dc_api_jwt = err (protocol_invalid_req (not_allowed dc_api_jwt) state)
  match_return_uri _ _ (unsupported m) =
      err (protocol_invalid_req ("'" <> m <> "' response_mode is not supported") state)
  match_return_uri (some _) (some _) _ =
      err (protocol_invalid_req "'response_uri' and 'redirect_uri' are mutually exclusive" state)
  match_return_uri _ none direct_post =
      err (protocol_invalid_req (not_with_mode "response_uri" direct_post) state)
  match_return_uri _ none direct_post_jwt =
      err (protocol_invalid_req (not_with_mode "response_uri" direct_post_jwt) state)
  match_return_uri none _ fragment =
      err (protocol_invalid_req (not_with_mode "redirect_uri" fragment) state)
  match_return_uri none _ fragment_jwt =
      err (protocol_invalid_req (not_with_mode "redirect_uri" fragment_jwt) state)

  unfoldable pub match_query :
      Option (Result Anyhow PresentationDefinition)
      → Option (Result Anyhow String)
      → Option (Result Anyhow Dcql)
      → Result Error PresentationQuery
  match_query none none (some d) =
      with_source (protocol invalid_dcql_format "an error occurred in parsing dcql_query" state)
        (result_parsing_error (Typed.dcql_query s) d)
      >>= λ v. ok (dcql v)
  match_query (some pd) none none =
      with_source
        (protocol invalid_presentation_definition_format
          "an error occurred in parsing presentation_definition" state)
        (result_parsing_error (Typed.presentation_definition s) pd)
      >>= λ v. ok (presentation_definition (by_value v))
  match_query none (some uri) none =
      with_source
        (protocol invalid_presentation_definition_uri "could parse a 'presentation_definition_uri'"
          state)
        (result_parsing_error (Typed.presentation_definition_uri s) uri)
      >>= λ v. ok (presentation_definition (by_reference v))
  match_query _ _ _ = err (
      protocol_invalid_req
        "one and only one correctly formatted of 'presentation_definition', 'presentation_definition_uri' or 'dcql_query' is required"
        state)

-- `TryFrom<UntypedObject> for AuthorizationRequestObject`
unfoldable pub try_from : Serde → UntypedObject → Result Error AuthorizationRequestObject
unfolding read_state get get_or_default parsing_error match_return_uri match_query read_return_uri
    read_origins
try_from s value = do
  let state = read_state s value
  client_id ← lift (parsing_error (Typed.client_id s) (get (Typed.client_id s) value))
  mode ← lift (get_or_default (Typed.response_mode s) ResponseMode.default value)
  (return_uri, response_mode, expected_origins) ←
      match_return_uri s value state (get (Typed.redirect_uri s) value)
        (get (Typed.response_uri s) value) mode
  response_type ← lift (parsing_error (Typed.response_type s) (get (Typed.response_type s) value))
  presentation_query ←
      match_query s value state (get (Typed.presentation_definition s) value)
        (get (Typed.presentation_definition_uri s) value) (get (Typed.dcql_query s) value)
  nonce ← lift (parsing_error (Typed.nonce s) (get (Typed.nonce s) value))
  client_metadata ←
      lift (parsing_error (Typed.client_metadata s) (get (Typed.client_metadata s) value))
  ok (record {
    inner = value;
    client_id = client_id;
    response_mode = response_mode;
    response_type = response_type;
    presentation_query = presentation_query;
    return_uri = return_uri;
    nonce = nonce;
    client_metadata = client_metadata;
    expected_origins = expected_origins;
  })

-- `From<AuthorizationRequestObject> for UntypedObject`
unfoldable pub into_object : Serde → AuthorizationRequestObject → UntypedObject
unfolding insert
into_object s aro = (insert (Typed.client_id s) aro.client_id aro.inner).0

unfoldable pub is_id_token_requested : AuthorizationRequestObject → Option Bool
is_id_token_requested aro = elim aro.response_type [
  | ResponseType.vp_token ↦ some false
  | ResponseType.vp_token_id_token ↦ some true
  | ResponseType.unsupported _ ↦ none
]
