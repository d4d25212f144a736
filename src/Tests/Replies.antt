-- ===== src/Tests/Replies.antt =====
-- Responses that a wallet sends, and a request that it refuses.
use openid4vp.Common.{
  String, ◌<>◌, Option, some, none, [], ◌∷◌, Result, ok, err, IsOk, Anyhow, ◌==◌, string_eq,
  if◌then◌else◌, ◌≡◌, refl, true, to_option,
}
use openid4vp.Json.{Json, string, array, nil}
use openid4vp.Error.{Error, internal, protocol_invalid_req, show}
use openid4vp.Http
use openid4vp.Http.{HttpRequest, HttpResponse, is_success}
use openid4vp.Parameters.Algorithms.{sha256}
use openid4vp.Parameters.ResponseMode.{direct_post}
use openid4vp.PresentationSubmission.Types.{PresentationSubmission}
use openid4vp.Verification.X509.{trim_end_matches}
use openid4vp.Response.Token.{pos, IdTokenBody, VpToken, string_item, ResponseSerde, from_string}
use openid4vp.Response.Authorization.{
  TransactionDataResponse, UnencodedAuthorizationResponse, unencoded, Forms, into_encoded,
  into_x_www_form_urlencoded, from_x_www_form_urlencoded,
}
use openid4vp.Response.Authorization.Laws.{
  IsFaithful, IsReadable, from_x_www_form_urlencoded-into_x_www_form_urlencoded,
}
use openid4vp.Response.Authorization.Lost.{
  IsUnquoted, from_x_www_form_urlencoded-single-text, from_x_www_form_urlencoded-alg,
}
use openid4vp.AuthorizationRequest.Url.{from_url}
use openid4vp.Wallet.{Submission, submit_response, validate_request}
use openid4vp.Wallet.Laws.{submit_response-direct_post, validate_request-err}
use openid4vp.Tests.Requests.{serde, metadata_serde, wallet}
use openid4vp.Tests.Sent.{http, network, urls}

abbrev body : IdTokenBody
body = record {
  issuer = "did:example:holder";
  subject = "did:example:holder";
  audience = "verifier";
  nonce = "n";
  sub_jwk = none;
  issued_at = some (pos 1);
  expiration_time = pos 2;
  other = none;
}

abbrev submission : PresentationSubmission
submission = record { id = "s"; definition_id = "d"; descriptor_map = [] }

abbrev two_tokens : VpToken
two_tokens = record { items = string_item "a.b.c" ∷ string_item "d.e.f" ∷ [] }

abbrev print : Json → String
print (string t) = String.◌∷◌ "\"" (t <> "\"")
print _ = "[]"

abbrev to_value : VpToken → Json
to_value t = elim t.items [ string_item s ∷ [] ↦ string s | _ ↦ array nil ]

abbrev parse : String → Result Anyhow VpToken
parse t =
    if t == "[]"
    then ok two_tokens
    else if t == "\"a.b.c\""
    then ok (from_string "a.b.c")
    else err ("no JSON" ∷ [])

abbrev response_serde : ResponseSerde
response_serde = record {
  to_string = print;
  to_text = λ v. err [];
  decode_id_token = λ t. ok body;
  vp_token_to_value = to_value;
  vp_token_from_value = λ v. ok two_tokens;
  vp_token_from_str = parse;
  submission_to_value = λ ps. err [];
  submission_from_value = λ v. ok submission;
  submission_to_string = λ ps. ok "s";
  submission_from_str = λ t. ok submission;
  hashes_from_value = λ v. err [];
  hashes_from_str = λ t. ok ("h" ∷ []);
}

-- The forms at one response.
abbrev forms : UnencodedAuthorizationResponse → Forms
forms a = record {
  to_string = λ f. ok "form";
  from_bytes = λ b. ok (into_encoded response_serde a);
  jwt_to_string = λ j. ok "response";
  jwt_from_bytes = λ b. err [];
}

abbrev reply : UnencodedAuthorizationResponse
reply = record {
  vp_token = two_tokens;
  presentation_submission = some submission;
  id_token = some (record { raw = "i.j.k"; parsed = body });
  state = some "state";
  transaction_data_response = none;
}

reply-IsFaithful : IsFaithful response_serde (forms reply) http.as_bytes reply
unfolding from_string
reply-IsFaithful = record {
  vp_token = refl;
  submission = λ ps e. ("s", refl, cc);
  hashes = λ d e. absurd (cc);
  form = λ h. (([], refl), refl);
  quoted = λ t. (t <> "\"", refl);
  one = λ t. refl;
}

reply-IsReadable : IsReadable response_serde reply
reply-IsReadable = (λ (s, e). cc, refl, tt)

makes_form : into_x_www_form_urlencoded response_serde (forms reply) reply ≡ ok "form"
unfolding into_x_www_form_urlencoded
makes_form = refl

from_x_www_form_urlencoded-into_x_www_form_urlencoded_example :
    from_x_www_form_urlencoded response_serde (forms reply) (http.as_bytes "form")
    ≡ ok (unencoded reply)
from_x_www_form_urlencoded-into_x_www_form_urlencoded_example =
    from_x_www_form_urlencoded-into_x_www_form_urlencoded response_serde (forms reply) http.as_bytes
      reply reply-IsFaithful reply-IsReadable makes_form

abbrev single : UnencodedAuthorizationResponse
single = record reply { vp_token = from_string "a.b.c" }

single-IsFaithful : IsFaithful response_serde (forms single) http.as_bytes single
unfolding from_string
single-IsFaithful = record {
  vp_token = refl;
  submission = λ ps e. ("s", refl, cc);
  hashes = λ d e. absurd (cc);
  form = λ h. (([], refl), refl);
  quoted = λ t. (t <> "\"", refl);
  one = λ t. refl;
}

jwt-IsUnquoted : IsUnquoted "a.b.c"
unfolding trim_end_matches
jwt-IsUnquoted = ("a", ".b.c", refl, refl, refl)

makes_single : into_x_www_form_urlencoded response_serde (forms single) single ≡ ok "form"
unfolding into_x_www_form_urlencoded
makes_single = refl

from_x_www_form_urlencoded-single-text_example :
    ¬ IsOk (from_x_www_form_urlencoded response_serde (forms single) (http.as_bytes "form"))
from_x_www_form_urlencoded-single-text_example =
    from_x_www_form_urlencoded-single-text response_serde (forms single) http.as_bytes single
      single-IsFaithful "a.b.c" refl jwt-IsUnquoted refl refl makes_single

abbrev details : TransactionDataResponse
details = record { transaction_data_hashes = "h" ∷ []; transaction_data_hashes_alg = some sha256 }

abbrev hashed : UnencodedAuthorizationResponse
hashed = record reply { transaction_data_response = some details }

hashed-IsFaithful : IsFaithful response_serde (forms hashed) http.as_bytes hashed
unfolding from_string
hashed-IsFaithful = record {
  vp_token = refl;
  submission = λ ps e. ("s", refl, cc);
  hashes = λ d e. cc;
  form = λ h. (([], refl), refl);
  quoted = λ t. (t <> "\"", refl);
  one = λ t. refl;
}

makes_hashed : into_x_www_form_urlencoded response_serde (forms hashed) hashed ≡ ok "form"
unfolding into_x_www_form_urlencoded
makes_hashed = refl

from_x_www_form_urlencoded-alg_example :
    ¬ IsOk (from_x_www_form_urlencoded response_serde (forms hashed) (http.as_bytes "form"))
from_x_www_form_urlencoded-alg_example =
    from_x_www_form_urlencoded-alg response_serde (forms hashed) http.as_bytes hashed
      hashed-IsFaithful details sha256 refl refl makes_hashed

abbrev to_verifier : Submission
to_verifier = record {
  set_fragment = λ url f. url <> "#" <> f;
  redirect_from_slice = λ b. ok "https://verifier.example/done";
  show_status = λ n. "";
}

submits :
    submit_response response_serde
      (forms reply)
      http
      to_verifier
      "https://verifier.example/post"
      direct_post
      (unencoded reply)
    ≡ ok (some "https://verifier.example/done")
unfolding submit_response
submits = refl

submit_response-direct_post_example :
    (sent : HttpRequest) × (resp : HttpResponse) × (http.execute sent ≡ ok resp)
    × (is_success resp ≡ true)
    × (sent.method ≡ Http.post)
    × (from_x_www_form_urlencoded response_serde (forms reply) sent.body ≡ ok (unencoded reply))
    × Path
        (Option String)
        (some "https://verifier.example/done")
        (to_option (to_verifier.redirect_from_slice resp.body))
submit_response-direct_post_example =
    submit_response-direct_post response_serde (forms reply) http to_verifier
      "https://verifier.example/post" reply reply-IsFaithful reply-IsReadable submits

abbrev missing_query : Error
missing_query = protocol_invalid_req "missing query params in Authorization Request uri" none

abbrev refusal : Anyhow
refusal = "unable to parse authorization request" ∷ show true missing_query ∷ []

refuses : validate_request serde urls true metadata_serde network wallet "" ≡ err (internal refusal)
unfolding validate_request from_url
refuses = refl

validate_request-err_example : (cause : Anyhow) × (internal refusal ≡ internal cause)
validate_request-err_example =
    validate_request-err serde urls true metadata_serde network wallet "" (internal refusal) refuses
