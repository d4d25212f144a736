-- ===== src/AuthorizationRequest/Object/Laws.antt =====
-- Which objects are read as a request object, and what it holds then.
use openid4vp.Common.{some, ok, >>=-eq-ok, map_err, ◌≡◌, ◌↔◌, refl, arith}
use openid4vp.Error.{internal}
use openid4vp.Object.{UntypedObject, TypedParameter, get, get_or_default, parsing_error}
use openid4vp.Parameters.ResponseMode
use openid4vp.Parameters.ResponseMode.{
  ResponseMode, direct_post, direct_post_jwt, fragment, fragment_jwt, dc_api, dc_api_jwt,
  unsupported,
}
use openid4vp.AuthorizationRequest.Typed
use openid4vp.AuthorizationRequest.Typed.{Serde}
use openid4vp.AuthorizationRequest.Object.Matching.{
  map_err_iff, parsing_error_iff, Returned, Queried, match_return_uri_iff, Queried-match_query,
  match_query-Queried,
}
use openid4vp.AuthorizationRequest.Object.{
  AuthorizationRequestObject, match_return_uri, match_query, read_state, try_from,
}

-- What an object must hold to be read as a request object, and what is read from it.
pub record Accepted (s : Serde) (o : UntypedObject) (aro : AuthorizationRequestObject)
    : Type 0 where
  pub inner : aro.inner ≡ o
  pub client_id : get (Typed.client_id s) o ≡ some (ok aro.client_id)
  pub response_mode :
      get_or_default (Typed.response_mode s) ResponseMode.default o ≡ ok aro.response_mode
  pub return_uri :
      Returned
        (get (Typed.redirect_uri s) o)
        (get (Typed.response_uri s) o)
        (get (Typed.expected_origins s) o)
        aro.response_mode
        aro.return_uri
        aro.expected_origins
  pub response_type : get (Typed.response_type s) o ≡ some (ok aro.response_type)
  pub presentation_query :
      Queried
        (get (Typed.presentation_definition s) o)
        (get (Typed.presentation_definition_uri s) o)
        (get (Typed.dcql_query s) o)
        aro.presentation_query
  pub nonce : get (Typed.nonce s) o ≡ some (ok aro.nonce)
  pub client_metadata : get (Typed.client_metadata s) o ≡ some (ok aro.client_metadata)

lift_iff :
    {A : Type 0} (p : TypedParameter A) (o : UntypedObject) {a : A}
    → (map_err internal (parsing_error p (get p o)) ≡ ok a) ↔ (get p o ≡ some (ok a))
lift_iff p o = (
  λ h. (parsing_error_iff p (get p o)).0 ((map_err_iff internal (parsing_error p (get p o))).0 h),
  λ h. (map_err_iff internal (parsing_error p (get p o))).1 ((parsing_error_iff p (get p o)).1 h),
)

Accepted-try_from :
    (s : Serde) (o : UntypedObject) (aro : AuthorizationRequestObject)
    → try_from s o ≡ ok aro
    → Accepted s o aro
unfolding try_from
Accepted-try_from s o aro h =
    let st = read_state s o in
    let (c, c_e, h₁) =
      >>=-eq-ok (map_err internal (parsing_error (Typed.client_id s) (get (Typed.client_id s) o))) _
        h in
    let (m, m_e, h₂) =
      >>=-eq-ok (map_err internal (get_or_default (Typed.response_mode s) ResponseMode.default o)) _
        h₁ in
    let (r, r_e, h₃) =
      >>=-eq-ok
        (match_return_uri s o st (get (Typed.redirect_uri s) o) (get (Typed.response_uri s) o) m) _
        h₂ in
    let (t, t_e, h₄) =
      >>=-eq-ok
        (map_err internal (parsing_error (Typed.response_type s) (get (Typed.response_type s) o))) _
        h₃ in
    let (q, q_e, h₅) =
      >>=-eq-ok
        (match_query s o st (get (Typed.presentation_definition s) o)
          (get (Typed.presentation_definition_uri s) o) (get (Typed.dcql_query s) o))
        _ h₄ in
    let (n, n_e, h₆) =
      >>=-eq-ok (map_err internal (parsing_error (Typed.nonce s) (get (Typed.nonce s) o))) _ h₅ in
    let (d, d_e, h₇) =
      >>=-eq-ok
        (map_err internal
          (parsing_error (Typed.client_metadata s) (get (Typed.client_metadata s) o)))
        _ h₆ in
    let (same, returned) =
      (match_return_uri_iff s o st (get (Typed.redirect_uri s) o) (get (Typed.response_uri s) o) m
          r.1 r.0 r.2).0
        r_e in
    let e : Path AuthorizationRequestObject
        (record {
          inner = o;
          client_id = c;
          response_mode = r.1;
          response_type = t;
          presentation_query = q;
          return_uri = r.0;
          nonce = n;
          client_metadata = d;
          expected_origins = r.2;
        })
        aro =
      ground arith in
    rw (← e) (record {
      inner = refl;
      client_id = (lift_iff (Typed.client_id s) o).0 c_e;
      response_mode = rw same (
          (map_err_iff internal (get_or_default (Typed.response_mode s) ResponseMode.default o)).0
            m_e);
      return_uri = rw same returned;
      response_type = (lift_iff (Typed.response_type s) o).0 t_e;
      presentation_query =
          Queried-match_query s o st (get (Typed.presentation_definition s) o)
            (get (Typed.presentation_definition_uri s) o) (get (Typed.dcql_query s) o) q q_e;
      nonce = (lift_iff (Typed.nonce s) o).0 n_e;
      client_metadata = (lift_iff (Typed.client_metadata s) o).0 d_e;
    })

try_from-Accepted :
    (s : Serde) (o : UntypedObject) (aro : AuthorizationRequestObject)
    → Accepted s o aro
    → try_from s o ≡ ok aro
unfolding try_from
try_from-Accepted s o aro a =
    let st = read_state s o in
    rw
      (
        try_from,
        (lift_iff (Typed.client_id s) o).1 a.client_id,
        (map_err_iff internal (get_or_default (Typed.response_mode s) ResponseMode.default o)).1
            a.response_mode,
        (match_return_uri_iff s o st (get (Typed.redirect_uri s) o) (get (Typed.response_uri s) o)
              aro.response_mode aro.response_mode aro.return_uri aro.expected_origins).1
            (refl, a.return_uri),
        (lift_iff (Typed.response_type s) o).1 a.response_type,
        match_query-Queried s o st (get (Typed.presentation_definition s) o)
            (get (Typed.presentation_definition_uri s) o) (get (Typed.dcql_query s) o)
            aro.presentation_query a.presentation_query,
        (lift_iff (Typed.nonce s) o).1 a.nonce,
        (lift_iff (Typed.client_metadata s) o).1 a.client_metadata,
        ← a.inner,
      )
      refl

-- An object is read as a request object exactly when its parameters are accepted: the response
-- mode (by default `fragment`) is a supported one and fits the redirect and response URIs that
-- are given, exactly one form of presentation query is given, and these and the required
-- parameters are parsed; the request object holds what they are parsed to.
pub try_from_object_iff :
    (s : Serde) (o : UntypedObject) (aro : AuthorizationRequestObject)
    → (try_from s o ≡ ok aro) ↔ Accepted s o aro
try_from_object_iff s o aro = (Accepted-try_from s o aro, try_from-Accepted s o aro)
