-- ===== src/AuthorizationRequest/Signed/Laws.antt =====
-- Which signed requests a wallet accepts.
use openid4vp.Common.{
  String, true, false, none, some, ok, err, ◌≡◌, ◌≢◌, ◌↔◌, refl, sym, >>=-eq-ok, ◌==◌, string_eq,
  Option-cases, Result-cases, Bool-cases, inl, inr, arith, ◌⊎◌,
}
use mathlib.Core.Option as O
use text.Mathlib.TextEquality.{eq_iff}
use openid4vp.Http.{Http, HttpResponse, is_success}
use openid4vp.Object.{get}
use openid4vp.Parameters.Algorithms
use openid4vp.Parameters.ClientId
use openid4vp.Parameters.ClientId.Laws.{Lacks, get_full_id-not-Lacks}
use openid4vp.AuthorizationRequest.Typed
use openid4vp.AuthorizationRequest.Typed.{Serde}
use openid4vp.AuthorizationRequest.Object.{AuthorizationRequestObject}
use openid4vp.AuthorizationRequest.Object.Matching.{map_err_iff}
use openid4vp.Verification.Metadata.{WalletMetadata, MetadataSerde}
use openid4vp.Verification.Request.{Wallet, unverified_jwt, verify_request}
use openid4vp.Verification.Request.Laws.{AcceptedJwt, verify_request-jwt_iff, then_ok}
use openid4vp.AuthorizationRequest.Signed.{
  RequestIndirection, by_value, by_reference, SignedAuthorizationRequest, WalletClient,
  http_resp_to_unverified_jwt, fetch_by_method, retrieve_unverified_jwt, check_nonce,
  validate_nonce, check_client_id, resolve_auth_request,
}

-- How a wallet comes by the JWT: it is the value itself, or the text of a successful response.
abbrev pub Retrieved :
    Serde → MetadataSerde → WalletClient → WalletMetadata → RequestIndirection → String → Type 0
Retrieved s ms client metadata (by_value jwt') jwt = jwt' ≡ jwt
Retrieved s ms client metadata (by_reference reference) jwt =
    (resp : HttpResponse) × (fetch_by_method s ms client metadata reference.request_uri
        (O.get_or reference.request_uri_method Algorithms.get)
      ≡ ok resp)
    × (is_success resp ≡ true)
    × (client.http.from_utf8 resp.body ≡ ok jwt)

http_resp_iff :
    (http : Http) (resp : HttpResponse) (jwt : String)
    → (http_resp_to_unverified_jwt http resp ≡ ok jwt)
      ↔ ((is_success resp ≡ true) × (http.from_utf8 resp.body ≡ ok jwt))
unfolding http_resp_to_unverified_jwt
http_resp_iff http resp jwt = elim (Bool-cases (is_success resp)) [
  | inl e ↦ rw e (
    λ h. (refl, (map_err_iff _ (http.from_utf8 resp.body)).0 h),
    λ (_, h). (map_err_iff _ (http.from_utf8 resp.body)).1 h,
  )
  | inr e ↦ rw e (λ h. absurd (ground arith), λ (h, _). absurd (ground arith))
]

module _ (s : Serde) (ms : MetadataSerde) (client : WalletClient) where
  retrieve_iff :
      (metadata : WalletMetadata) (r : RequestIndirection) (jwt : String)
      → (retrieve_unverified_jwt s ms client metadata r ≡ ok jwt)
        ↔ Retrieved s ms client metadata r jwt
  unfolding retrieve_unverified_jwt
  retrieve_iff metadata (by_value jwt') jwt = (λ h. ground arith, λ h. ground arith)
  retrieve_iff metadata (by_reference reference) jwt = (
    λ h.
        let (resp, e, k) =
          >>=-eq-ok
            (fetch_by_method s ms client metadata reference.request_uri
              (O.get_or reference.request_uri_method Algorithms.get))
            _ h in
        let (success, text) = (http_resp_iff client.http resp jwt).0 k in (resp, e, success, text),
    λ (resp, e, success, text).
        rw (retrieve_unverified_jwt, e) ((http_resp_iff client.http resp jwt).1 (success, text)),
  )

  -- There is no nonce of the wallet in the request, or the wallet finds it valid.
  abbrev pub NonceAccepted : AuthorizationRequestObject → Type 0
  NonceAccepted aro =
      (get (Typed.wallet_nonce s) aro.inner ≡ none)
      ⊎ ((nonce : String) × (get (Typed.wallet_nonce s) aro.inner ≡ some (ok nonce))
          × (client.validate_nonce nonce ≡ ok true))

  check_nonce_iff :
      (nonce : String)
      → (check_nonce client (some nonce) ≡ ok tt) ↔ (client.validate_nonce nonce ≡ ok true)
  unfolding check_nonce
  check_nonce_iff nonce = elim (Result-cases (client.validate_nonce nonce)) [
    | inl (true, e) ↦ rw e (λ _. refl, λ _. refl)
    | inl (false, e) ↦ rw e (λ h. absurd (ground arith), λ h. absurd (ground arith))
    | inr (e, q) ↦ rw q (λ h. absurd (ground arith), λ h. absurd (ground arith))
  ]

  NonceAccepted-validate_nonce :
      (aro : AuthorizationRequestObject) → validate_nonce s client aro ≡ ok tt → NonceAccepted aro
  unfolding validate_nonce
  NonceAccepted-validate_nonce aro h = elim (Option-cases (get (Typed.wallet_nonce s) aro.inner)) [
    | inl e ↦ inl e
    | inr (err x, e) ↦ absurd (ground arith)
    | inr (ok nonce, e) ↦ inr (nonce, e, (check_nonce_iff nonce).0 (ground arith))
  ]

  validate_nonce-NonceAccepted :
      (aro : AuthorizationRequestObject) → NonceAccepted aro → validate_nonce s client aro ≡ ok tt
  unfolding validate_nonce
  validate_nonce-NonceAccepted aro (inl e) = rw (validate_nonce, e, check_nonce) refl
  validate_nonce-NonceAccepted aro (inr (nonce, e, v)) =
      rw (validate_nonce, e) ((check_nonce_iff nonce).1 v)

  check_client_id_iff :
      (id : String) (aro : AuthorizationRequestObject)
      → (check_client_id s id aro ≡ ok tt) ↔ (id ≡ ClientId.get_full_id aro.client_id)
  unfolding check_client_id
  check_client_id_iff id aro = elim (Bool-cases (id == ClientId.get_full_id aro.client_id)) [
    | inl e ↦ rw e (λ _. (eq_iff id (ClientId.get_full_id aro.client_id)).0 e, λ _. refl)
    | inr e ↦ rw e (
      λ h. absurd (ground arith),
      λ h. absurd (cc ((eq_iff id (ClientId.get_full_id aro.client_id)).1 h)),
    )
  ]

  -- A wallet accepts a signed request as a request object exactly when it comes by a JWT, which
  -- it is given or which a successful response holds, it accepts the JWT as that object, the
  -- object has no nonce of the wallet or a valid one, and the request names the client identifier
  -- of the object in its printed form.
  pub resolve_auth_request_iff :
      (wallet : Wallet) (r : SignedAuthorizationRequest) (aro : AuthorizationRequestObject)
      → (resolve_auth_request s ms client wallet r ≡ ok aro) ↔ (
          ((jwt : String) × Retrieved s ms client wallet.metadata r.request_indirection jwt
            × AcceptedJwt s ms client.decode_unverified wallet jwt aro)
          × NonceAccepted aro
          × (r.client_id ≡ ClientId.get_full_id aro.client_id))
  unfolding resolve_auth_request
  resolve_auth_request_iff wallet r aro = (
    λ h.
        let (jwt, jwt_e, h₁) =
          >>=-eq-ok (retrieve_unverified_jwt s ms client wallet.metadata r.request_indirection) _
            h in
        let (q, q_e, h₂) =
          >>=-eq-ok (verify_request s ms client.decode_unverified wallet (unverified_jwt jwt)) _
            h₁ in
        let (u, nonce_e, h₃) = >>=-eq-ok (validate_nonce s client q) _ h₂ in
        let (id_e, same) = (then_ok (check_client_id s r.client_id q) q aro).0 h₃ in
        let accepted = (verify_request-jwt_iff s ms client.decode_unverified wallet jwt q).0 q_e in
        (
          (
            jwt,
            (retrieve_iff wallet.metadata r.request_indirection jwt).0 jwt_e,
            rw same at accepted,
          ),
          rw same at (NonceAccepted-validate_nonce q nonce_e),
          rw same at ((check_client_id_iff r.client_id q).0 id_e),
        ),
    λ ((jwt, retrieved, accepted), nonce, same).
        rw
          (
            resolve_auth_request,
            (retrieve_iff wallet.metadata r.request_indirection jwt).1 retrieved,
            (verify_request-jwt_iff s ms client.decode_unverified wallet jwt aro).1 accepted,
            validate_nonce-NonceAccepted aro nonce,
            (check_client_id_iff r.client_id aro).1 same,
          )
          refl,
  )

  -- A signed request whose client identifier has no prefix, as that of a pre-registered client, is
  -- never accepted.
  pub resolve_auth_request-not-Lacks :
      (wallet : Wallet) (r : SignedAuthorizationRequest) (aro : AuthorizationRequestObject)
      → Lacks b':' r.client_id
      → resolve_auth_request s ms client wallet r ≢ ok aro
  resolve_auth_request-not-Lacks wallet r aro lacks h =
      let (accepted, nonce, same) = (resolve_auth_request_iff wallet r aro).0 h in
      get_full_id-not-Lacks r.client_id aro.client_id lacks (sym same)
