-- ===== src/Verifier/RequestBuilder/Sent.antt =====
-- What a request that is built is sent as, and the query that it must have.
use openid4vp.Common.{
  String, Bool, [], Option, some, none, ok, >>=-eq-ok, ◌≡◌, ◌≢◌, ◌==◌, string_eq, All, Bool-cases,
  inl, inr,
}
use openid4vp.Error.{with_context}
use openid4vp.Object.{UntypedObject}
use openid4vp.Parameters.ClientId
use openid4vp.PresentationDefinition.{PresentationDefinition}
use openid4vp.Dcql.Query.{Dcql, DcqlCredential}
use openid4vp.AuthorizationRequest.Typed.{Serde}
use openid4vp.AuthorizationRequest.Object.{AuthorizationRequestObject, lift}
use openid4vp.AuthorizationRequest.Object.Matching.{map_err_iff}
use openid4vp.AuthorizationRequest.Signed.{SignedAuthorizationRequest}
use openid4vp.AuthorizationRequest.Url.{Urls, object_into_url, signed_into_url}
use openid4vp.Verifier.Client.{Client}
use openid4vp.Verifier.ByReference.{ByReference, RequestType, plain, signed_jwt}
use openid4vp.Verifier.Checks.{validate_dcql, validate_presentation_definition}
use openid4vp.Verifier.Checks.Laws.{Fresh, SetsFit, ids, validate_dcql_iff}
use openid4vp.Verifier.RequestBuilder.{indirection, insert_query, send}

-- The signed request that a client sends with a JWT.
abbrev pub sent_request : Client → ByReference → String → SignedAuthorizationRequest
sent_request client how jwt = record {
  client_id = ClientId.get_full_id client.id;
  request_indirection = indirection how jwt;
}

-- A plain request is sent as the URL that the request object is made; a signed one as the URL of
-- the identifier of the client and the JWT that it made of the request object, with that JWT.
abbrev pub IsSent :
    Urls
    → Client
    → String
    → AuthorizationRequestObject
    → RequestType
    → String × Option String
    → Type 0
IsSent urls client endpoint aro plain r =
    (url : String) × (object_into_url urls aro endpoint ≡ ok url) × (r ≡ (url, none))
IsSent urls client endpoint aro (signed_jwt how) r =
    (url jwt : String) × (client.generate_request_object_jwt aro ≡ ok jwt)
    × (signed_into_url urls (sent_request client how jwt) endpoint ≡ ok url)
    × (r ≡ (url, some jwt))

module _ (urls : Urls) (debug_assertions : Bool) where
  pub send-IsSent :
      (client : Client) (endpoint : String) (aro : AuthorizationRequestObject) (t : RequestType)
      {r : String × Option String}
      → send urls debug_assertions client endpoint aro t ≡ ok r
      → IsSent urls client endpoint aro t r
  unfolding send
  send-IsSent client endpoint aro plain h =
      let write = object_into_url urls aro endpoint in
      let (url, url_e, k) =
        >>=-eq-ok
          (with_context debug_assertions "unable to generate authorization request URL" write) _
          h in
      (url, (map_err_iff _ write).0 url_e, cc)
  send-IsSent client endpoint aro (signed_jwt how) h =
      let generate = client.generate_request_object_jwt aro in
      let (jwt, jwt_e, k) = >>=-eq-ok (lift generate) _ h in
      let write = signed_into_url urls (sent_request client how jwt) endpoint in
      let (url, url_e, l) =
        >>=-eq-ok
          (with_context debug_assertions "unable to generate authorization request URL" write) _
          k in
      (url, jwt, (map_err_iff _ generate).0 jwt_e, (map_err_iff _ write).0 url_e, cc)

-- Exactly one query: a DCQL query whose credentials have distinct identifiers, and claims that
-- their claim sets can name, or a presentation definition with an identifier and descriptors.
abbrev pub HasQuery : Option Dcql → Option PresentationDefinition → Type 0
HasQuery (some dcql) none =
    Fresh [] (ids dcql.credentials.vec)
    × All (λ (c : DcqlCredential). SetsFit c.claims c.claim_sets) dcql.credentials.vec
HasQuery none (some definition) = (definition.id ≢ "") × (definition.input_descriptors ≢ [])
HasQuery _ _ = ⊥

validate_presentation_definition-ok :
    (definition : PresentationDefinition)
    → validate_presentation_definition definition ≡ ok tt
    → (definition.id ≢ "") × (definition.input_descriptors ≢ [])
unfolding validate_presentation_definition
validate_presentation_definition-ok definition h = elim (Bool-cases (definition.id == "")) [
  | inl e ↦ let k = rw e at h in absurd (cc)
  | inr e ↦ (
    λ same. let k = (string_eq.beq_iff definition.id "").1 same in cc,
    λ same. let k = rw (e, same) at h in cc,
  )
]

pub insert_query-HasQuery :
    (s : Serde) (dcql : Option Dcql) (definition : Option PresentationDefinition)
    (o : UntypedObject) {queried : UntypedObject}
    → insert_query s dcql definition o ≡ ok queried
    → HasQuery dcql definition
unfolding insert_query
insert_query-HasQuery s (some d) none o h =
    let (u, checked, _) = >>=-eq-ok (validate_dcql d) _ h in (validate_dcql_iff d).0 checked
insert_query-HasQuery s none (some d) o h =
    let (u, checked, _) = >>=-eq-ok (validate_presentation_definition d) _ h in
    validate_presentation_definition-ok d checked
insert_query-HasQuery s none none o h = cc
insert_query-HasQuery s (some d) (some e) o h = cc
