-- ===== src/AuthorizationRequest/Url.antt =====
-- core/authorization_request/mod.rs: requests as URLs, `AuthorizationRequest`, and the queries that
-- are resolved.
pub mod Laws
use openid4vp.Common.{
  ℕ, String, ◌<>◌, Bool, true, not, ◌||◌, List, [], ◌∷◌, Option, none, some, Result, ok, err,
  Anyhow, ◌>>=◌, map_err, ok_or, ◌==◌, string_eq, if◌then◌else◌,
}
use openid4vp.Common.Dict
use openid4vp.Common.Dict.{Dict}
use openid4vp.Json.{Json, object, of_entries}
use openid4vp.Error.{
  Error, internal, protocol, protocol_invalid_req, add_source, invalid_presentation_definition_uri,
  invalid_presentation_definition_reference,
}
use openid4vp.Http.{Http, HttpResponse, is_success, create_get_request, mime_type_json}
use openid4vp.Object.{UntypedObject, flatten_for_form}
use openid4vp.PresentationDefinition.{PresentationDefinition}
use openid4vp.Dcql.Query.{Dcql}
use openid4vp.AuthorizationRequest.Typed
use openid4vp.AuthorizationRequest.Typed.{Serde}
use openid4vp.AuthorizationRequest.Object
use openid4vp.AuthorizationRequest.Object.{
  AuthorizationRequestObject, PresentationQuery, PresentationDefinitionIndirection, lift,
  with_source, read_state, try_from,
}
use openid4vp.AuthorizationRequest.Signed.{
  SignedAuthorizationRequest, RequestIndirection, by_value, by_reference, WalletClient,
  resolve_auth_request,
}
use openid4vp.AuthorizationRequest.Signed.Parsing.{signed_from_map}
use openid4vp.Parameters.Algorithms
use openid4vp.Parameters.Algorithms.{HttpMethodForAuth}
use openid4vp.Verification.Metadata.{MetadataSerde}
use openid4vp.Verification.Request.{Wallet, plain, verify_request}

pub data AuthorizationRequest : Type 0 where
  plain_request : AuthorizationRequestObject → AuthorizationRequest
  signed_request : SignedAuthorizationRequest → AuthorizationRequest

pub data ResolvedPresentationQuery : Type 0 where
  resolved_dcql : Dcql → ResolvedPresentationQuery
  resolved_definition : PresentationDefinition → ResolvedPresentationQuery

-- `url::Url`, as a text with the parts that are used, and `serde_urlencoded`: a form that is
-- printed and read as a map. `to_string` is `serde_json::to_string`, and `show_number` prints a
-- status.
pub record Urls : Type 0 where
  pub query : String → Option String
  pub authority : String → String
  pub path : String → String
  pub set_query : String → String → String
  pub form_to_string : Dict String String → Result Anyhow String
  pub form_from_str : String → Result Anyhow (Dict String Json)
  pub parse_url : String → Result Anyhow String
  pub to_string : Json → Result Anyhow String
  pub show_number : ℕ → String

unfoldable pub get_presentation_definition :
    ResolvedPresentationQuery → Option PresentationDefinition
get_presentation_definition (resolved_definition d) = some d
get_presentation_definition (resolved_dcql d) = none

unfoldable pub get_dcql : ResolvedPresentationQuery → Option Dcql
get_dcql (resolved_dcql d) = some d
get_dcql (resolved_definition d) = none

-- `AuthorizationRequestObject::into_url`
unfoldable pub object_into_url : Urls → AuthorizationRequestObject → String → Result Error String
unfolding flatten_for_form
object_into_url urls aro authorization_endpoint = do
  flat ← lift (flatten_for_form urls.to_string aro.inner)
  query ← lift (urls.form_to_string flat)
  ok (urls.set_query authorization_endpoint query)

-- What `Serialize` is derived to for a signed request: the fields, those of the indirection among
-- them.
unfoldable pub method_entries : Option HttpMethodForAuth → Dict String String
method_entries none = []
method_entries (some Algorithms.get) = ("request_uri_method", "get") ∷ []
method_entries (some Algorithms.post) = ("request_uri_method", "post") ∷ []

unfoldable pub indirection_entries : RequestIndirection → Dict String String
unfolding method_entries
indirection_entries (by_value jwt) = ("request", jwt) ∷ []
indirection_entries (by_reference reference) =
    ("request_uri", reference.request_uri) ∷ method_entries reference.request_uri_method

unfoldable pub signed_entries : SignedAuthorizationRequest → Dict String String
unfolding indirection_entries
signed_entries request =
    ("client_id", request.client_id) ∷ indirection_entries request.request_indirection

-- `SignedAuthorizationRequest::into_url`
unfoldable pub signed_into_url : Urls → SignedAuthorizationRequest → String → Result Error String
unfolding signed_entries
signed_into_url urls request authorization_endpoint = do
  query ← lift (urls.form_to_string (signed_entries request))
  ok (urls.set_query authorization_endpoint query)

-- One part of a URL against that of the authorization endpoint.
unfoldable pub check_part : String → String → String → Result Error (Unit {0})
check_part part found expected =
    if not (found == expected)
    then err (
        protocol_invalid_req
          ("unexpected authorization_endpoint " <> part <> ", expected '" <> expected
            <> "', received '" <> found <> "'")
          none)
    else ok tt

module _ (s : Serde) (urls : Urls) where
  -- A map with one of the two keys is a signed request.
  unfoldable pub from_query_map : Dict String Json → Result Error AuthorizationRequest
  unfolding Dict.contains_key signed_from_map try_from
  from_query_map query_map =
      if Dict.contains_key "request" query_map || Dict.contains_key "request_uri" query_map
      then (with_source
            (protocol_invalid_req "unable to parse Signed Authorization Request from query params"
              none)
            (signed_from_map urls.parse_url query_map)
          >>= λ signed. ok (signed_request signed))
      else (try_from s (record { map = query_map }) >>= λ aro. ok (plain_request aro))

  unfoldable pub from_query_params : String → Result Error AuthorizationRequest
  unfolding from_query_map
  from_query_params query_params = do
    query_map ←
        with_source
          (protocol_invalid_req "unable to parse Authorization Request from query params" none)
          (urls.form_from_str query_params)
    from_query_map query_map

  unfoldable pub from_url : String → String → Result Error AuthorizationRequest
  unfolding check_part from_query_params
  from_url url authorization_endpoint = do
    query ←
        ok_or (protocol_invalid_req "missing query params in Authorization Request uri" none)
          (urls.query url)
    _ ← check_part "authority" (urls.authority url) (urls.authority authorization_endpoint)
    _ ← check_part "path" (urls.path url) (urls.path authorization_endpoint)
    from_query_params query

  -- `AuthorizationRequest::validate`
  unfoldable pub validate :
      MetadataSerde
      → WalletClient
      → Wallet
      → AuthorizationRequest
      → Result Error AuthorizationRequestObject
  unfolding verify_request resolve_auth_request
  validate ms client wallet (plain_request aro) =
      verify_request s ms client.decode_unverified wallet (plain aro)
  validate ms client wallet (signed_request signed) = resolve_auth_request s ms client wallet signed

  -- `from_slice` is that of `serde_json`, at a value.
  unfoldable pub resolve_query :
      Http
      → (List ℕ → Result Anyhow Json)
      → AuthorizationRequestObject
      → PresentationQuery
      → Result Error ResolvedPresentationQuery
  unfolding create_get_request read_state
  resolve_query http from_slice aro (Object.dcql d) = ok (resolved_dcql d)
  resolve_query http from_slice aro (Object.presentation_definition (Object.by_value d)) =
      ok (resolved_definition d)
  resolve_query http from_slice aro (Object.presentation_definition (Object.by_reference url)) = do
    request ← lift (create_get_request http url mime_type_json)
    resp ← lift (http.execute request)
    json ←
        if not (is_success resp)
        then err (
            protocol invalid_presentation_definition_uri
              ("failed to get Presentation Definition: status_code="
                <> urls.show_number resp.status)
              (read_state s aro.inner))
        else lift (from_slice resp.body)
    definition ←
        with_source
          (protocol invalid_presentation_definition_reference
            "failed to get parse Presentation Definition: {e}" (read_state s aro.inner))
          ((Typed.presentation_definition s).try_from json)
    ok (resolved_definition definition)

  unfoldable pub resolve_presentation_query :
      Http
      → (List ℕ → Result Anyhow Json)
      → AuthorizationRequestObject
      → Result Error ResolvedPresentationQuery
  unfolding resolve_query
  resolve_presentation_query http from_slice aro =
      resolve_query http from_slice aro aro.presentation_query
