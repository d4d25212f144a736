-- ===== src/Tests/Requests.antt =====
-- A request of the Digital Credentials API and one that is sent by POST, with a wallet for them.
use openid4vp.Common.{
  String, [], ◌∷◌, none, some, Result, ok, err, Anyhow, string_eq, ◌≡◌, ◌≢◌, ◌↔◌,
}
use openid4vp.Json.{Json, string, object, end}
use openid4vp.Error.{Error, internal}
use openid4vp.Object.{UntypedObject, get}
use openid4vp.Parameters.Prefix.{x509_hash}
use openid4vp.Parameters.ResponseMode
use openid4vp.Parameters.ResponseType
use openid4vp.CredentialFormat.Designation.{jwt}
use openid4vp.CredentialFormat.Payload.{ClaimFormatMap, alg}
use openid4vp.Dcql.Query.{Dcql}
use openid4vp.PresentationDefinition.{PresentationDefinition}
use openid4vp.AuthorizationRequest.Typed.{Serde}
use openid4vp.AuthorizationRequest.Object.{AuthorizationRequestObject, dcql, try_from}
use openid4vp.AuthorizationRequest.Object.Laws.{Accepted, try_from_object_iff}
use openid4vp.Verification.Metadata.{WalletMetadata, MetadataSerde, vp_formats_supported}
use openid4vp.Verification.Validation.{
  validate_request_against_metadata, validate_vp_formats_supported,
}
use openid4vp.Verification.Validation.Laws.{Offered, validate_vp_formats_supported_iff}
use openid4vp.Verification.Request.{Wallet, plain, unverified_jwt, default_wallet, verify_request}
use openid4vp.Verification.Request.Laws.{
  AcceptedJwt, AcceptedPlain, verify_request-jwt_iff, verify_request-plain_iff,
  default_wallet-rejects_jwt,
}

abbrev pub text_of : Json → Result Anyhow String
text_of (string s) = ok s
text_of _ = err ("no text" ∷ [])

abbrev pub empty_query : Dcql
empty_query = record { credentials = record { vec = [] }; credential_sets = none }

abbrev pub no_formats : PresentationDefinition
no_formats = record {
  id = "";
  input_descriptors = [];
  submission_requirements = none;
  name = none;
  purpose = none;
  format = [];
}

-- What is read does not depend on the text or value, but for the texts themselves.
abbrev pub serde : Serde
serde = record {
  to_text = text_of;
  to_url = text_of;
  to_texts = λ v. err ("no texts" ∷ []);
  object_from_str = λ s. ok (record { map = [] });
  object_from_value = λ v. ok (record { map = [] });
  definition_from_str = λ s. ok no_formats;
  definition_from_value = λ v. ok no_formats;
  definition_to_value = λ d. ok (object end);
  dcql_from_str = λ s. ok empty_query;
  dcql_from_value = λ v. ok empty_query;
  dcql_to_value = λ d. ok (object end);
  parse_origin = λ s. ok s;
}

abbrev pub parameters : UntypedObject
parameters = record {
  map =
      ("client_id", string "x509_hash:abc")
      ∷ ("response_mode", string "direct_post")
      ∷ ("response_uri", string "https://verifier.example/post")
      ∷ ("response_type", string "vp_token")
      ∷ ("dcql_query", object end)
      ∷ ("nonce", string "n")
      ∷ ("client_metadata", object end)
      ∷ [];
}

abbrev pub request : AuthorizationRequestObject
request = record {
  inner = parameters;
  client_id = record { id = "abc"; prefix = x509_hash };
  response_mode = ResponseMode.direct_post;
  response_type = ResponseType.vp_token;
  presentation_query = dcql empty_query;
  return_uri = some "https://verifier.example/post";
  nonce = "n";
  client_metadata = record { map = [] };
  expected_origins = none;
}

try_from_object_iff_example :
    (try_from serde parameters ≡ ok request) ↔ Accepted serde parameters request
try_from_object_iff_example = try_from_object_iff serde parameters request

abbrev pub formats : ClaimFormatMap
formats = (jwt, alg ("ES256" ∷ [])) ∷ []

abbrev pub metadata_serde : MetadataSerde
metadata_serde = record {
  to_formats = λ v. ok formats;
  from_formats = λ f. ok (object end);
  to_texts = λ v. ok [];
  payload_to_string = λ p. ok "";
}

abbrev pub wallet_metadata : WalletMetadata
wallet_metadata = record {
  inner = record { map = [] };
  authorization_endpoint = "openid4vp:";
  vp_formats_supported = formats;
  response_types_supported = ResponseType.vp_token ∷ [];
  client_id_prefixes_supported = x509_hash ∷ [];
  request_object_signing_alg_values_supported = "ES256" ∷ [];
  scopes_supported = [];
  subject_syntax_types_supported = [];
  id_token_types_supported = [];
  id_token_signing_alg_values_supported = [];
}

abbrev pub decode : String → Result Anyhow UntypedObject
decode _ = ok parameters

abbrev pub accept : AuthorizationRequestObject → String → Result Error (Unit {0})
accept r text = ok tt

-- A wallet that accepts the hash of a certificate, and every redirection URI.
abbrev pub wallet : Wallet
wallet = record {
  metadata = wallet_metadata;
  decentralized_identifier = λ r t. err (internal []);
  openid_federation = λ r t. err (internal []);
  preregistered = λ r t. err (internal []);
  redirect_uri = accept;
  verifier_attestation = λ r t. err (internal []);
  origin = λ r t. err (internal []);
  x509_san_dns = λ r t. err (internal []);
  x509_hash = accept;
  redirect_uri_jwt = λ r t. err (internal []);
}

verify_request-jwt_iff_example :
    (verify_request serde metadata_serde decode wallet (unverified_jwt "a.b.c") ≡ ok request)
    ↔ AcceptedJwt serde metadata_serde decode wallet "a.b.c" request
verify_request-jwt_iff_example =
    verify_request-jwt_iff serde metadata_serde decode wallet "a.b.c" request

verify_request-plain_iff_example :
    (verify_request serde metadata_serde decode wallet (plain request) ≡ ok request) ↔ (
      AcceptedPlain serde metadata_serde decode wallet request
      × (validate_request_against_metadata serde metadata_serde wallet_metadata request ≡ ok tt)
      × (request ≡ request))
verify_request-plain_iff_example =
    verify_request-plain_iff serde metadata_serde decode wallet request request

abbrev no_signature : String → Result Anyhow String
no_signature _ = ok ""

default_wallet-rejects_jwt_example :
    verify_request serde metadata_serde decode
      (default_wallet serde no_signature wallet_metadata)
      (unverified_jwt "a.b.c")
    ≢ ok request
default_wallet-rejects_jwt_example =
    default_wallet-rejects_jwt serde metadata_serde decode no_signature wallet_metadata "a.b.c"
      request

abbrev client_metadata : UntypedObject
client_metadata = record { map = ("vp_formats_supported", object end) ∷ [] }

validate_vp_formats_supported_iff_example :
    (validate_vp_formats_supported serde metadata_serde client_metadata wallet_metadata none
      ≡ ok tt)
    ↔ ((fs : ClaimFormatMap)
        → get (vp_formats_supported serde metadata_serde) client_metadata ≡ some (ok fs)
        → Offered formats fs)
validate_vp_formats_supported_iff_example =
    validate_vp_formats_supported_iff serde metadata_serde client_metadata wallet_metadata none
