-- ===== src/Tests/Built.antt =====
-- Requests that a verifier builds.
use openid4vp.Common.{String, false, [], ◌∷◌, none, some, ok, ◌≡◌, ◌≢◌, refl, inl, string_eq}
use openid4vp.Json.{string, object, end}
use openid4vp.Object.{UntypedObject, get, result_parsing_error}
use openid4vp.Utils.{from_string_or_value}
use openid4vp.Parameters.Prefix
use openid4vp.Parameters.Prefix.{x509_hash}
use openid4vp.Parameters.ClientId
use openid4vp.Parameters.ResponseMode
use openid4vp.Parameters.ResponseMode.{dc_api}
use openid4vp.Parameters.ResponseType
use openid4vp.Parameters.ResponseType.{type_eq}
use openid4vp.AuthorizationRequest.Typed
use openid4vp.AuthorizationRequest.Object.{AuthorizationRequestObject, try_from}
use openid4vp.AuthorizationRequest.Url.{Urls, from_url, signed_request}
use openid4vp.Verification.Metadata.{WalletMetadata}
use openid4vp.Metadata.Parameters
use openid4vp.Verifier.Client.{Client}
use openid4vp.Verifier.ByReference.{plain, signed_jwt}
use openid4vp.Verifier.RequestBuilder.{RequestBuilder, build_parameters, indirection, build}
use openid4vp.Verifier.RequestBuilder.Built.{build-plain-dc_api}
use openid4vp.Tests.Requests.{serde, metadata_serde, wallet_metadata}
use openid4vp.Verifier.ByReference
use openid4vp.Verifier.RequestBuilder.Sent.{sent_request}
use openid4vp.Verifier.RequestBuilder.Delivered.{from_url-build}
use openid4vp.Tests.Sent.{query, urls, by_text, by_text-IsFaithful}

abbrev client : Client
client = record {
  id = record { id = "abc"; prefix = x509_hash };
  prefix = x509_hash;
  generate_request_object_jwt = λ body. ok "a.b.c";
}

abbrev defaults : String → UntypedObject
defaults mode = record {
  map =
      ("response_mode", string mode)
      ∷ ("response_type", string "vp_token")
      ∷ ("nonce", string "n")
      ∷ ("client_metadata", object end)
      ∷ [];
}

abbrev builder : String → RequestBuilder
builder mode = record {
  presentation_definition = none;
  dcql = some query;
  request_parameters = defaults mode;
  verifier = record {
    client = client;
    default_request_params = defaults mode;
    submission_endpoint = some "https://verifier.example/post";
  };
}

reads_mode :
    get (Typed.response_mode serde) (builder "dc_api").request_parameters ≡ some (ok dc_api)
unfolding get ResponseMode.from_string
reads_mode = refl

build-plain-dc_api_example :
    build serde metadata_serde urls false (builder "dc_api") wallet_metadata plain
    ≢ ok ("url", none)
build-plain-dc_api_example =
    build-plain-dc_api serde metadata_serde urls false (builder "dc_api") wallet_metadata dc_api
      ("url", none) reads_mode (inl refl)

-- Every form is printed alike.
abbrev any_form : Urls
any_form = record urls { form_to_string = λ d. ok "request" }

abbrev wallet_at : WalletMetadata
wallet_at = record wallet_metadata {
  inner = record { map = ("authorization_endpoint", string "openid4vp:") ∷ [] };
}

builds_signed :
    build serde metadata_serde urls false
      (builder "direct_post")
      wallet_at
      (signed_jwt ByReference.false)
    ≡ ok ("?signed", some "a.b.c")
unfolding build Prefix.try_from ResponseMode.from_string ResponseType.from_string
    ResponseType.ResponseType-discrete Prefix.ClientIdPrefix-discrete Typed.client_id_from
    Prefix.into_string result_parsing_error from_string_or_value
builds_signed = refl

sends_text : sent_request client ByReference.false "a.b.c" ≡ by_text
unfolding Prefix.into_string ClientId.get_full_id indirection
sends_text = refl

reads_endpoint :
    get (Parameters.authorization_endpoint serde) wallet_at.inner ≡ some (ok "openid4vp:")
unfolding get
reads_endpoint = refl

from_url-build_example :
    (from_url serde urls "?signed" "openid4vp:"
      ≡ ok (signed_request (sent_request client ByReference.false "a.b.c")))
    × (p : UntypedObject) × (aro : AuthorizationRequestObject) × (build_parameters serde
          metadata_serde
          (builder "direct_post")
          wallet_at
          (signed_jwt ByReference.false)
        ≡ ok p)
    × (try_from serde p ≡ ok aro)
    × (client.generate_request_object_jwt aro ≡ ok "a.b.c")
from_url-build_example =
    from_url-build serde metadata_serde urls false (builder "direct_post") wallet_at
      ByReference.false "openid4vp:" "?signed" "a.b.c" (rw sends_text by_text-IsFaithful)
      reads_endpoint builds_signed
