-- ===== src/Tests/Sent.antt =====
-- Signed requests that a wallet resolves, and their URLs.
use openid4vp.Common.{
  String, ◌==◌, if◌then◌else◌, true, [], ◌∷◌, none, some, Result, ok, err, Anyhow, ◌≡◌, ◌≢◌, ◌↔◌,
  refl, All, string_eq, arith,
}
use openid4vp.Common.Dict.{Dict}
use openid4vp.Json.{Json, string}
use openid4vp.Http.{Http}
use openid4vp.Parameters.Algorithms
use openid4vp.Parameters.ClientId
use openid4vp.Parameters.ClientId.{ClientId}
use openid4vp.Parameters.ResponseType.{type_eq}
use openid4vp.CredentialFormat.Designation.{jwt}
use openid4vp.Dcql.Query.{Dcql, DcqlCredential}
use openid4vp.AuthorizationRequest.Signed.{
  SignedAuthorizationRequest, by_value, by_reference, WalletClient, resolve_auth_request,
}
use openid4vp.AuthorizationRequest.Signed.Laws.{
  Retrieved, NonceAccepted, resolve_auth_request_iff, resolve_auth_request-not-Lacks,
}
use openid4vp.AuthorizationRequest.Url.{
  Urls, signed_entries, from_url, signed_request, signed_into_url,
}
use openid4vp.AuthorizationRequest.Url.Laws.{IsFaithful, from_url-signed_into_url}
use openid4vp.Verification.Request.Laws.{AcceptedJwt}
use openid4vp.Verifier.Checks.{validate_dcql}
use openid4vp.Verifier.Checks.Laws.{Fresh, SetsFit, validate_dcql_iff}
use openid4vp.Tests.Requests.{serde, metadata_serde, wallet, request, decode}

abbrev pub http : Http
http = record {
  header_value = λ t. ok t;
  parse_uri = λ t. ok t;
  execute = λ r. ok (record { status = 200; body = [] });
  as_bytes = λ t. [];
  from_utf8 = λ b. ok "a.b.c";
}

abbrev pub network : WalletClient
network = record {
  http = http;
  generate_nonce = ok none;
  validate_nonce = λ n. ok true;
  encode_object = λ o. ok "";
  decode_unverified = decode;
}

abbrev by_uri : SignedAuthorizationRequest
by_uri = record {
  client_id = "x509_hash:abc";
  request_indirection = by_reference (record {
    request_uri = "https://verifier.example/request";
    request_uri_method = some Algorithms.post;
  });
}

resolve_auth_request_iff_example :
    (resolve_auth_request serde metadata_serde network wallet by_uri ≡ ok request) ↔ (
      ((jwt : String) × Retrieved serde metadata_serde network wallet.metadata
          by_uri.request_indirection jwt
        × AcceptedJwt serde metadata_serde decode wallet jwt request)
      × NonceAccepted serde metadata_serde network request
      × (by_uri.client_id ≡ ClientId.get_full_id request.client_id))
resolve_auth_request_iff_example =
    resolve_auth_request_iff serde metadata_serde network wallet by_uri request

abbrev unprefixed : SignedAuthorizationRequest
unprefixed = record { client_id = "verifier"; request_indirection = by_value "a.b.c" }

resolve_auth_request-not-Lacks_example :
    resolve_auth_request serde metadata_serde network wallet unprefixed ≢ ok request
resolve_auth_request-not-Lacks_example =
    resolve_auth_request-not-Lacks serde metadata_serde network wallet unprefixed request
      (omega arith)

abbrev credential : DcqlCredential
credential = record {
  id = record { text = "card" };
  format = jwt;
  meta = record { vct_values = none; type_values = none; doctype_value = none };
  multiple = none;
  claims = none;
  claim_sets = none;
  require_cryptographic_holder_binding = none;
  trusted_authorities = none;
}

abbrev pub query : Dcql
query = record { credentials = record { vec = credential ∷ [] }; credential_sets = none }

validate_dcql_iff_example : (validate_dcql query ≡ ok tt) ↔ (
    Fresh [] ("card" ∷ [])
    × All (λ (c : DcqlCredential). SetsFit c.claims c.claim_sets) (credential ∷ []))
validate_dcql_iff_example = validate_dcql_iff query

-- A form for the one signed request, and for no entries.
abbrev print_form : Dict String String → Result Anyhow String
print_form [] = ok ""
print_form ((k, v) ∷ []) = err []
print_form ((k, v) ∷ (k', v') ∷ []) =
    if k == "client_id"
    then (if v == "x509_hash:abc"
        then (if k' == "request" then (if v' == "a.b.c" then ok "signed" else err []) else err [])
        else err [])
    else err []
print_form ((k, v) ∷ (k', v') ∷ (k'', v'') ∷ d) = err []

abbrev read_form : String → Result Anyhow (Dict String Json)
read_form q =
    if q == ""
    then ok []
    else ok (("client_id", string "x509_hash:abc") ∷ ("request", string "a.b.c") ∷ [])

abbrev pub by_text : SignedAuthorizationRequest
by_text = record { client_id = "x509_hash:abc"; request_indirection = by_value "a.b.c" }

-- A query of a URL is what follows its first character.
abbrev pub urls : Urls
urls = record {
  query = λ url. elim url [ String.[] ↦ none | String.◌∷◌ c q ↦ some q ];
  authority = λ url. "";
  path = λ url. "";
  set_query = λ url q. String.◌∷◌ "?" q;
  form_to_string = print_form;
  form_from_str = read_form;
  parse_url = λ url. ok url;
  to_string = λ v. ok "{}";
  show_number = λ n. "";
}

pub by_text-IsFaithful : IsFaithful urls by_text "openid4vp:"
unfolding signed_entries
by_text-IsFaithful = record {
  form = λ {q} h. let e : q ≡ "signed" = cc in rw e refl;
  query = λ h. refl;
  authority = λ q. refl;
  path = λ q. refl;
  uri = λ reference h. refl;
}

makes_url : signed_into_url urls by_text "openid4vp:" ≡ ok "?signed"
unfolding signed_into_url
makes_url = refl

from_url-signed_into_url_example :
    from_url serde urls "?signed" "openid4vp:" ≡ ok (signed_request by_text)
from_url-signed_into_url_example =
    from_url-signed_into_url serde urls by_text "openid4vp:" by_text-IsFaithful makes_url
