-- ===== src/Wallet/Laws.antt =====
-- What is sent when a response is submitted, and how a refused request is reported.
use openid4vp.Common.{
  ℕ, String, Bool, true, Option, List, [], ◌∷◌, Result, ok, err, Anyhow, >>=-eq-ok, >>=-eq-err,
  context, to_option, ◌≡◌, inl, inr, arith,
}
use openid4vp.Error.{Error, internal, show, with_context}
use openid4vp.Http
use openid4vp.Http.{
  Http, HttpRequest, HttpResponse, is_success, create_post_request, mime_type_json,
  mime_type_form_urlencoded,
}
use openid4vp.Parameters.ResponseMode.{direct_post}
use openid4vp.AuthorizationRequest.Typed.{Serde}
use openid4vp.AuthorizationRequest.Object.{lift}
use openid4vp.AuthorizationRequest.Object.Matching.{map_err_iff}
use openid4vp.AuthorizationRequest.Signed.{WalletClient}
use openid4vp.AuthorizationRequest.Url.{Urls, from_url, validate}
use openid4vp.Verification.Metadata.{MetadataSerde}
use openid4vp.Verification.Request
use openid4vp.Response.Token.{ResponseSerde}
use openid4vp.Response.Authorization.{
  UnencodedAuthorizationResponse, unencoded, Forms, into_x_www_form_urlencoded,
  from_x_www_form_urlencoded,
}
use openid4vp.Response.Authorization.Laws.{
  IsFaithful, IsReadable, from_x_www_form_urlencoded-into_x_www_form_urlencoded,
}
use openid4vp.Wallet.{
  Submission, post_of, post_form, read_answer, finish, submit_response, validate_request,
}

-- A step whose errors are given a context fails with an internal error.
context-err {ℓ} :
    {A : Type ℓ} (debug_assertions : Bool) (message : String) (m : Result Error A) {e : Error}
    → with_context debug_assertions message m ≡ err e
    → (cause : Anyhow) × (e ≡ internal cause)
context-err debug_assertions message (ok a) h = absurd (cc)
context-err debug_assertions message (err c) h = (message ∷ show debug_assertions c ∷ [], cc)

module _ (r : ResponseSerde) (forms : Forms) (http : Http) (u : Submission) where
  read_answer-ok :
      (resp : HttpResponse) {answer : Option String}
      → read_answer r forms http u resp ≡ ok answer
      → (is_success resp ≡ true) × (answer ≡ to_option (u.redirect_from_slice resp.body))
  unfolding read_answer
  read_answer-ok resp h = ground arith

  finish-post_of :
      (sent : HttpRequest) {answer : Option String}
      → finish r forms http u (post_of sent) ≡ ok answer
      → (resp : HttpResponse) × (http.execute sent ≡ ok resp)
        × (is_success resp ≡ true)
        × (answer ≡ to_option (u.redirect_from_slice resp.body))
  unfolding finish
  finish-post_of sent h =
      let execute = context "failed to make authorization response request" (http.execute sent) in
      let (resp, executed, answered) = >>=-eq-ok (lift execute) _ h in
      let passed = (map_err_iff _ execute).0 executed in
      let (success, answer) = read_answer-ok resp answered in
      (resp, (map_err_iff _ (http.execute sent)).0 passed, success, answer)

  create_post_request-ok :
      (url : String) (body : List ℕ) (content_type accept : String) {sent : HttpRequest}
      → create_post_request http url body content_type accept ≡ ok sent
      → (sent.method ≡ Http.post) × (sent.body ≡ body)
  unfolding create_post_request
  create_post_request-ok url body content_type accept h =
      let (uri, _, same) =
        >>=-eq-ok (context "could not parse request uri" (http.parse_uri url)) _ h in
      (cc, cc)

  -- A response whose VP token is not a single text, whose ID token is decoded from its own text
  -- and that names no hash algorithm, when it is submitted by `direct_post` with a result, was
  -- posted, with success, with a body from which the response is read, and the result is the URL
  -- that the server's answer names, if any; the libraries read back of it what they print.
  pub submit_response-direct_post :
      (uri : String) (a : UnencodedAuthorizationResponse) {answer : Option String}
      → IsFaithful r forms http.as_bytes a
      → IsReadable r a
      → submit_response r forms http u uri direct_post (unencoded a) ≡ ok answer
      → (sent : HttpRequest) × (resp : HttpResponse) × (http.execute sent ≡ ok resp)
        × (is_success resp ≡ true)
        × (sent.method ≡ Http.post)
        × (from_x_www_form_urlencoded r forms sent.body ≡ ok (unencoded a))
        × (answer ≡ to_option (u.redirect_from_slice resp.body))
  unfolding submit_response post_form finish
  submit_response-direct_post uri a {answer} faithful readable h =
      let form = into_x_www_form_urlencoded r forms a in
      let (submitted, posted, finished) = >>=-eq-ok (post_form r forms http u uri form) _ h in
      let (text, text_e, k) = >>=-eq-ok (lift form) _ posted in
      let create =
        create_post_request http uri (http.as_bytes text) mime_type_form_urlencoded
          mime_type_json in
      let (sent, sent_e, k') = >>=-eq-ok (lift create) _ k in
      let (is_post, same_body) =
        create_post_request-ok uri (http.as_bytes text) mime_type_form_urlencoded mime_type_json
          ((map_err_iff _ create).0 sent_e) in
      let done : finish r forms http u (post_of sent) ≡ ok answer = cc in
      let (resp, executed, success, answered) = finish-post_of sent done in
      let form_e = (map_err_iff _ form).0 text_e in
      let read =
        from_x_www_form_urlencoded-into_x_www_form_urlencoded r forms http.as_bytes a faithful
          readable form_e in
      (sent, resp, executed, success, is_post, rw same_body read, answered)

-- A request that a wallet does not accept is reported as an internal error, whatever its cause.
pub validate_request-err :
    (s : Serde) (urls : Urls) (debug_assertions : Bool) (ms : MetadataSerde) (client : WalletClient)
    (wallet : Request.Wallet) (url : String) (e : Error)
    → validate_request s urls debug_assertions ms client wallet url ≡ err e
    → (cause : Anyhow) × (e ≡ internal cause)
unfolding validate_request
validate_request-err s urls debug_assertions ms client wallet url e h =
    let parse =
      with_context debug_assertions "unable to parse authorization request"
        (from_url s urls url wallet.metadata.authorization_endpoint) in
    elim (>>=-eq-err parse _ h) [
      | inl failed ↦
          context-err debug_assertions "unable to parse authorization request"
            (from_url s urls url wallet.metadata.authorization_endpoint) failed
      | inr (ar, failed) ↦
          context-err debug_assertions "unable to validate authorization request"
            (validate s urls ms client wallet ar) failed
    ]
