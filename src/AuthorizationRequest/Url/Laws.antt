-- ===== src/AuthorizationRequest/Url/Laws.antt =====
-- A request that is made a URL, read from that URL.
use openid4vp.Common.{
  String, true, Option, [], ◌∷◌, Result, Anyhow, ok, none, some, ◌≡◌, refl, ◌||◌, >>=-eq-ok,
  string_eq, arith, beq_refl,
}
use openid4vp.Common.Dict
use openid4vp.Common.Dict.{Dict}
use openid4vp.Json.{Json, string}
use openid4vp.Parameters.Algorithms
use openid4vp.Parameters.Algorithms.{HttpMethodForAuth}
use openid4vp.AuthorizationRequest.Typed.{Serde}
use openid4vp.AuthorizationRequest.Object.{lift}
use openid4vp.AuthorizationRequest.Object.Matching.{map_err_iff}
use openid4vp.AuthorizationRequest.Signed.Parsing.{
  reference_from, indirection_from, signed_from_map,
}
use openid4vp.AuthorizationRequest.Signed.{
  RequestReference, SignedAuthorizationRequest, RequestIndirection, by_value, by_reference,
}
use openid4vp.AuthorizationRequest.Url.{
  Urls, signed_request, indirection_entries, method_entries, signed_entries, signed_into_url,
  check_part, from_query_map, from_query_params, from_url,
}

-- The values of a form are texts.
abbrev pub texts : Dict String String → Dict String Json
texts [] = []
texts ((k, t) ∷ d) = (k, string t) ∷ texts d

-- Of the form of a request: it is read as its entries, and a URL keeps it as its query, and keeps
-- its other parts. The URL of a reference is parsed from its text.
pub record IsFaithful (urls : Urls) (r : SignedAuthorizationRequest) (endpoint : String)
    : Type 0 where
  pub form :
      {q : String}
      → urls.form_to_string (signed_entries r) ≡ ok q
      → urls.form_from_str q ≡ ok (texts (signed_entries r))
  pub query :
      {q : String}
      → urls.form_to_string (signed_entries r) ≡ ok q
      → urls.query (urls.set_query endpoint q) ≡ some q
  pub authority :
      (q : String) → urls.authority (urls.set_query endpoint q) ≡ urls.authority endpoint
  pub path : (q : String) → urls.path (urls.set_query endpoint q) ≡ urls.path endpoint
  pub uri :
      (reference : RequestReference)
      → r.request_indirection ≡ by_reference reference
      → urls.parse_url reference.request_uri ≡ ok reference.request_uri

check_part_refl : (part text : String) → check_part part text text ≡ ok tt
unfolding check_part
check_part_refl part text = rw (beq_refl text) refl

-- The two keys that a signed request is told by.
abbrev pub IsMarked : Dict String String → Type 0
IsMarked d =
    (Dict.contains_key "request" (texts d) || Dict.contains_key "request_uri" (texts d)) ≡ true

method_entries_key :
    (uri : String) (m : Option HttpMethodForAuth)
    → IsMarked (("client_id", uri) ∷ ("request_uri", uri) ∷ method_entries m)
unfolding method_entries Dict.contains_key
method_entries_key uri none = refl
method_entries_key uri (some Algorithms.get) = refl
method_entries_key uri (some Algorithms.post) = refl

client_entries-IsMarked :
    (id : String) (i : RequestIndirection) → IsMarked (("client_id", id) ∷ indirection_entries i)
unfolding indirection_entries Dict.contains_key
client_entries-IsMarked id (by_value jwt) = refl
client_entries-IsMarked id (by_reference r) = method_entries_key id r.request_uri_method

signed_entries-IsMarked : (r : SignedAuthorizationRequest) → IsMarked (signed_entries r)
unfolding signed_entries
signed_entries-IsMarked r = client_entries-IsMarked r.client_id r.request_indirection

-- The entries of a request are read as that request.
reference_from-texts :
    (parse_url : String → Result Anyhow String) (uri : String) (m : Option HttpMethodForAuth)
    → parse_url uri ≡ ok uri
    → reference_from parse_url (("request_uri", string uri) ∷ texts (method_entries m))
      ≡ ok (record { request_uri = uri; request_uri_method = m })
unfolding reference_from method_entries
reference_from-texts parse_url uri none e = rw (reference_from, e) refl
reference_from-texts parse_url uri (some Algorithms.get) e = rw (reference_from, e) refl
reference_from-texts parse_url uri (some Algorithms.post) e = rw (reference_from, e) refl

indirection_from-reference :
    (parse_url : String → Result Anyhow String) (uri : String) (m : Option HttpMethodForAuth)
    → parse_url uri ≡ ok uri
    → indirection_from parse_url (("request_uri", string uri) ∷ texts (method_entries m))
      ≡ ok (by_reference (record { request_uri = uri; request_uri_method = m }))
unfolding indirection_from method_entries
indirection_from-reference parse_url uri none e =
    let read = reference_from-texts parse_url uri none e in rw read refl
indirection_from-reference parse_url uri (some Algorithms.get) e =
    let read = reference_from-texts parse_url uri (some Algorithms.get) e in rw read refl
indirection_from-reference parse_url uri (some Algorithms.post) e =
    let read = reference_from-texts parse_url uri (some Algorithms.post) e in rw read refl

method_entries_apart :
    (m : Option HttpMethodForAuth)
    → Dict.erase "client_id" (texts (method_entries m)) ≡ texts (method_entries m)
unfolding Dict.erase method_entries
method_entries_apart none = refl
method_entries_apart (some Algorithms.get) = refl
method_entries_apart (some Algorithms.post) = refl

indirection_entries_apart :
    (i : RequestIndirection)
    → Dict.erase "client_id" (texts (indirection_entries i)) ≡ texts (indirection_entries i)
unfolding Dict.erase indirection_entries
indirection_entries_apart (by_value jwt) = refl
indirection_entries_apart (by_reference r) = rw (method_entries_apart r.request_uri_method) refl

indirection_from-texts :
    (parse_url : String → Result Anyhow String) (i : RequestIndirection)
    → ((reference : RequestReference)
        → i ≡ by_reference reference
        → parse_url reference.request_uri ≡ ok reference.request_uri)
    → indirection_from parse_url (texts (indirection_entries i)) ≡ ok i
unfolding indirection_from indirection_entries
indirection_from-texts parse_url (by_value jwt) h = refl
indirection_from-texts parse_url (by_reference r) h =
    indirection_from-reference parse_url r.request_uri r.request_uri_method (h r refl)

signed_from_map-texts :
    (parse_url : String → Result Anyhow String) (r : SignedAuthorizationRequest)
    → ((reference : RequestReference)
        → r.request_indirection ≡ by_reference reference
        → parse_url reference.request_uri ≡ ok reference.request_uri)
    → signed_from_map parse_url (texts (signed_entries r)) ≡ ok r
unfolding signed_from_map signed_entries
signed_from_map-texts parse_url r h =
    rw
      (
        indirection_entries_apart r.request_indirection,
        indirection_from-texts parse_url r.request_indirection h,
      )
      refl

module _ (s : Serde) (urls : Urls) (r : SignedAuthorizationRequest) (endpoint : String)
    (faithful : IsFaithful urls r endpoint) where
  -- A signed request that is made a URL is read back from it at the same endpoint; where the form
  -- of its entries is read as them, the URL keeps that form as its query and its other parts as they
  -- are, and a URL that the request refers to is parsed from its text.
  pub from_url-signed_into_url :
      {url : String}
      → signed_into_url urls r endpoint ≡ ok url
      → from_url s urls url endpoint ≡ ok (signed_request r)
  unfolding signed_into_url from_url from_query_params from_query_map
  from_url-signed_into_url {url} h =
      let (q, q_e, k) = >>=-eq-ok (lift (urls.form_to_string (signed_entries r))) _ h in
      let printed = (map_err_iff _ (urls.form_to_string (signed_entries r))).0 q_e in
      let same : urls.set_query endpoint q ≡ url = ground arith in
      rw
        (
          ← same,
          from_url,
          faithful.query printed,
          faithful.authority q,
          faithful.path q,
          check_part_refl "authority" (urls.authority endpoint),
          check_part_refl "path" (urls.path endpoint),
          faithful.form printed,
          from_query_map,
          signed_entries-IsMarked r,
          signed_from_map-texts urls.parse_url r faithful.uri,
        )
        refl
