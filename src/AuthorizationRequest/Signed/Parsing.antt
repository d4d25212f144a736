-- ===== src/AuthorizationRequest/Signed/Parsing.antt =====
-- core/authorization_request/mod.rs: what `serde` derives for `SignedAuthorizationRequest` and what
-- it is made of, as it reads a map. `parse_url` parses a URL; the texts of the errors are not fixed.
use openid4vp.Common.{
  String, [], ◌∷◌, Option, none, some, Result, ok, err, Anyhow, ◌>>=◌, map_ok, ◌==◌, string_eq,
  if◌then◌else◌,
}
use openid4vp.Common.Dict
use openid4vp.Common.Dict.{Dict}
use openid4vp.Json.{Json, null, string}
use openid4vp.Parameters.Algorithms
use openid4vp.Parameters.Algorithms.{HttpMethodForAuth}
use openid4vp.AuthorizationRequest.Signed.{
  RequestReference, RequestIndirection, by_value, by_reference, SignedAuthorizationRequest,
}

-- `Deserialize for RequestReference`: a missing method is none.
unfoldable pub method_from : Option Json → Result Anyhow (Option HttpMethodForAuth)
unfolding Algorithms.method_try_from
method_from none = ok none
method_from (some null) = ok none
method_from (some (string m)) = map_ok some (Algorithms.method_try_from m)
method_from (some _) = err ("invalid type for request_uri_method" ∷ [])

unfoldable pub reference_from :
    (String → Result Anyhow String) → Dict String Json → Result Anyhow RequestReference
unfolding Dict.lookup method_from
reference_from parse_url d = elim (Dict.lookup "request_uri" d) [
  | some (string u) ↦ do
    uri ← parse_url u
    method ← method_from (Dict.lookup "request_uri_method" d)
    ok (record { request_uri = uri; request_uri_method = method })
  | _ ↦ err ("data did not match any variant of RequestIndirection" ∷ [])
]

-- `Deserialize for RequestIndirection`: the entry `request` alone, or else a reference.
unfoldable pub indirection_from :
    (String → Result Anyhow String) → Dict String Json → Result Anyhow RequestIndirection
unfolding reference_from
indirection_from parse_url d =
    let reference = reference_from parse_url d >>= λ reference. ok (by_reference reference) in
    elim d [
      | (key, string jwt) ∷ [] ↦ if key == "request" then ok (by_value jwt) else reference
      | _ ↦ reference
    ]

-- `Deserialize for SignedAuthorizationRequest`: the indirection is read from the other entries.
unfoldable pub signed_from_map :
    (String → Result Anyhow String) → Dict String Json → Result Anyhow SignedAuthorizationRequest
unfolding Dict.lookup Dict.erase indirection_from
signed_from_map parse_url d = elim (Dict.lookup "client_id" d) [
  | some (string client_id) ↦ do
    request_indirection ← indirection_from parse_url (Dict.erase "client_id" d)
    ok (record { client_id = client_id; request_indirection = request_indirection })
  | some _ ↦ err ("invalid type for client_id, expected a string" ∷ [])
  | none ↦ err ("missing field `client_id`" ∷ [])
]
