-- ===== src/Http.antt =====
-- core/util/http.rs: the requests that are sent, with the mime types.
use openid4vp.Common.{
  ℕ, String, Bool, ◌&&◌, List, [], ◌∷◌, Result, ok, err, Anyhow, ◌>>=◌, context, ltb,
}
use openid4vp.Common.Dict.{Dict}

pub data Method : Type 0 where
  get post : Method

-- `http::Request<Vec<u8>>`, without the version and the extensions, which stay the defaults.
pub record HttpRequest : Type 0 where
  pub method : Method
  pub uri : String
  pub headers : Dict String String
  pub body : List ℕ

-- What is read of an `http::Response<Vec<u8>>`.
pub record HttpResponse : Type 0 where
  pub status : ℕ
  pub body : List ℕ

-- `HeaderValue::from_str`, `Uri::from_str`, the trait `AsyncHttpClient`, and UTF-8.
pub record Http : Type 0 where
  pub header_value : String → Result Anyhow String
  pub parse_uri : String → Result Anyhow String
  pub execute : HttpRequest → Result Anyhow HttpResponse
  pub as_bytes : String → List ℕ
  pub from_utf8 : List ℕ → Result Anyhow String

-- `StatusCode::is_success`
unfoldable pub is_success : HttpResponse → Bool
is_success r = ltb 199 r.status && ltb r.status 300

abbrev pub mime_type_json : String
mime_type_json = "application/json"

abbrev pub mime_type_form_urlencoded : String
mime_type_form_urlencoded = "application/x-www-form-urlencoded"

abbrev pub mime_type_oauth_req_jwt : String
mime_type_oauth_req_jwt = "application/oauth-authz-req+jwt"

-- Both headers, or none where one of them is no header value.
unfoldable pub post_headers : Result Anyhow String → Result Anyhow String → Dict String String
post_headers (ok content_type) (ok accept) =
    ("content-type", content_type) ∷ ("accept", accept) ∷ []
post_headers _ _ = []

unfoldable pub get_headers : Result Anyhow String → Dict String String
get_headers (ok accept) = ("accept", accept) ∷ []
get_headers (err _) = []

module _ (http : Http) where
  unfoldable pub create_post_request : String → List ℕ → String → String → Result Anyhow HttpRequest
  unfolding post_headers
  create_post_request url body content_type accept = do
    uri ← context "could not parse request uri" (http.parse_uri url)
    ok (record {
      method = post;
      uri = uri;
      headers = post_headers (http.header_value content_type) (http.header_value accept);
      body = body;
    })

  unfoldable pub create_get_request : String → String → Result Anyhow HttpRequest
  unfolding get_headers
  create_get_request url accept = do
    uri ← context "could not parse request uri" (http.parse_uri url)
    ok (record {
      method = get;
      uri = uri;
      headers = get_headers (http.header_value accept);
      body = [];
    })
