-- ===== src/Verification/Request/Laws.antt =====
-- What a wallet accepts, of a request that is plain and of one that is a JWT.
use openid4vp.Common.{
  String, none, some, Result, ok, err, Anyhow, ◌>>=◌, >>=-eq-ok, map_err, string_eq, ◌==◌, ◌≡◌, ◌≢◌,
  ◌∙◌, ◌↔◌, ◌⊎◌, refl, inl, inr, Bool-cases, Option-cases, arith,
}
use openid4vp.Error.{Error}
use openid4vp.Object.{UntypedObject}
use openid4vp.Parameters.Prefix.{
  ClientIdPrefix, decentralized_identifier, openid_federation, pre_registered, redirect_uri,
  verifier_attestation, origin, x509_san_dns, x509_hash,
}
use openid4vp.Parameters.ResponseMode.{ResponseMode, mode_eq}
use openid4vp.AuthorizationRequest.Typed.{Serde}
use openid4vp.AuthorizationRequest.Object.{AuthorizationRequestObject, try_from}
use openid4vp.AuthorizationRequest.Object.Laws.{Accepted, try_from_object_iff}
use openid4vp.AuthorizationRequest.Object.Matching.{map_err_iff}
use openid4vp.Verification.Metadata.{WalletMetadata, MetadataSerde}
use openid4vp.Verification.Validation.{validate_request_against_metadata}
use openid4vp.Verification.Validation.Fitness.{Fits, validate_request_against_metadata_iff}
use openid4vp.Verification.Request.{
  Wallet, plain, unverified_jwt, not_supported, default_redirect_uri_jwt, default_wallet,
  verify_prefix, verify_plain, fetch_and_verify, verify_request,
}

-- A check before a result that is given.
pub then_ok :
    {A : Type 0} (v : Result Error (Unit {0})) (a b : A)
    → ((v >>= λ _. ok a) ≡ ok b) ↔ ((v ≡ ok tt) × (a ≡ b))
then_ok (ok u) a b = (λ h. (refl, ground arith), λ (_, e). ground arith)
then_ok (err e) a b = (λ h. cc, λ (h, _). cc)

-- What the wallet must accept of a request and its JWT, for each prefix of a client identifier.
abbrev pub VerifiedBy : Wallet → ClientIdPrefix → AuthorizationRequestObject → String → Type 0
VerifiedBy w decentralized_identifier r jwt = w.decentralized_identifier r jwt ≡ ok tt
VerifiedBy w openid_federation r jwt = w.openid_federation r jwt ≡ ok tt
VerifiedBy w pre_registered r jwt = w.preregistered r jwt ≡ ok tt
VerifiedBy w redirect_uri r jwt = w.redirect_uri_jwt r jwt ≡ ok tt
VerifiedBy w verifier_attestation r jwt = w.verifier_attestation r jwt ≡ ok tt
VerifiedBy w origin r jwt = w.origin r jwt ≡ ok tt
VerifiedBy w x509_san_dns r jwt = w.x509_san_dns r jwt ≡ ok tt
VerifiedBy w x509_hash r jwt = w.x509_hash r jwt ≡ ok tt

verify_prefix_iff :
    (s : Serde) (w : Wallet) (prefix : ClientIdPrefix) (r : AuthorizationRequestObject)
    (jwt : String)
    → (verify_prefix s w prefix r jwt ≡ ok tt) ↔ VerifiedBy w prefix r jwt
unfolding verify_prefix
verify_prefix_iff s w decentralized_identifier r jwt = (λ h. h, λ h. h)
verify_prefix_iff s w openid_federation r jwt = (λ h. h, λ h. h)
verify_prefix_iff s w pre_registered r jwt = (λ h. h, λ h. h)
verify_prefix_iff s w redirect_uri r jwt = (λ h. h, λ h. h)
verify_prefix_iff s w verifier_attestation r jwt = (λ h. h, λ h. h)
verify_prefix_iff s w origin r jwt = (λ h. h, λ h. h)
verify_prefix_iff s w x509_san_dns r jwt = (λ h. h, λ h. h)
verify_prefix_iff s w x509_hash r jwt = (λ h. h, λ h. h)

module _ (s : Serde) (ms : MetadataSerde) (decode_unverified : String → Result Anyhow UntypedObject)
    (wallet : Wallet) where
  -- The claims of the JWT are accepted as the request, the wallet accepts it together with the
  -- JWT by the method for the prefix of its client identifier, and it fits the metadata of the
  -- wallet.
  abbrev pub AcceptedJwt : String → AuthorizationRequestObject → Type 0
  AcceptedJwt jwt r =
      ((claims : UntypedObject) × (decode_unverified jwt ≡ ok claims) × Accepted s claims r)
      × VerifiedBy wallet r.client_id.prefix r jwt
      × Fits s ms wallet.metadata r

  -- A wallet accepts a JWT as a request exactly when its parameters are accepted as those of that
  -- request object, the method that the wallet has for just the prefix of the client identifier
  -- accepts the request and the JWT, and the request fits the metadata of the wallet: the prefix
  -- (by default only `pre-registered`) and the response type are listed there, with
  -- `vp_token id_token` so are the syntax types that the verifier names, and where formats are
  -- read from the metadata of the verifier, some format among them is one of the wallet's, with a
  -- payload that overlaps with the wallet's.
  pub verify_request-jwt_iff :
      (jwt : String) (r : AuthorizationRequestObject)
      → (verify_request s ms decode_unverified wallet (unverified_jwt jwt) ≡ ok r)
        ↔ AcceptedJwt jwt r
  unfolding verify_request fetch_and_verify
  verify_request-jwt_iff jwt r = (
    λ h.
        let (q, e, k) =
          >>=-eq-ok (fetch_and_verify s decode_unverified wallet (unverified_jwt jwt)) _ h in
        let (fits, same) =
          (then_ok (validate_request_against_metadata s ms wallet.metadata q) q r).0 k in
        let (claims, d, l) = >>=-eq-ok (map_err _ (decode_unverified jwt)) _ e in
        let (p, t, m) = >>=-eq-ok (try_from s claims) _ l in
        let (verified, alike) =
          (then_ok (verify_prefix s wallet p.client_id.prefix p jwt) p q).0 m in
        let read = (map_err_iff _ (decode_unverified jwt)).0 d in
        let e₁ : p ≡ r = alike ∙ same in
        (
          (claims, read, (try_from_object_iff s claims r).0 (rw e₁ at t)),
          (verify_prefix_iff s wallet r.client_id.prefix r jwt).0 (rw e₁ at verified),
          (validate_request_against_metadata_iff s ms wallet.metadata r).0 (rw same at fits),
        ),
    λ ((claims, d, accepted), verified, fits).
        rw
          (
            verify_request,
            fetch_and_verify,
            d,
            (try_from_object_iff s claims r).1 accepted,
            (verify_prefix_iff s wallet r.client_id.prefix r jwt).1 verified,
            (validate_request_against_metadata_iff s ms wallet.metadata r).1 fits,
          )
          refl,
  )

  -- The redirection URI, or the lack of one in a mode of the Digital Credentials API, is accepted.
  abbrev pub AcceptedPlain : AuthorizationRequestObject → Type 0
  AcceptedPlain r =
      ((url : String) × (r.return_uri ≡ some url) × (wallet.redirect_uri r url ≡ ok tt))
      ⊎ ((r.return_uri ≡ none)
          × ((r.response_mode ≡ ResponseMode.dc_api) ⊎ (r.response_mode ≡ ResponseMode.dc_api_jwt)))

  verify_plain_iff :
      (r : AuthorizationRequestObject) → (verify_plain s wallet r ≡ ok tt) ↔ AcceptedPlain r
  unfolding verify_plain
  verify_plain_iff r = elim (Option-cases r.return_uri) [
    | inr (url, e) ↦ (
      λ h. inl (url, e, ground (arith, h, e)),
      λ a. elim a [
        | inl (u, f, accepted) ↦
            let same : u ≡ url = ground arith in rw (verify_plain, e) (rw same at accepted)
        | inr (f, _) ↦ cc
      ],
    )
    | inl e ↦ elim (Bool-cases (r.response_mode == ResponseMode.dc_api)) [
      | inl is_api ↦ (
        λ _. inr (e, inl ((mode_eq.beq_iff r.response_mode ResponseMode.dc_api).0 is_api)),
        λ _. rw (verify_plain, e, is_api) refl,
      )
      | inr not_api ↦ elim (Bool-cases (r.response_mode == ResponseMode.dc_api_jwt)) [
        | inl is_jwt ↦ (
          λ _. inr (e, inr ((mode_eq.beq_iff r.response_mode ResponseMode.dc_api_jwt).0 is_jwt)),
          λ _. rw (verify_plain, e, not_api, is_jwt) refl,
        )
        | inr not_jwt ↦ (
          λ h. let k = rw (verify_plain, e, not_api, not_jwt) at h in cc,
          λ a. elim a [
            | inl (u, f, _) ↦ cc
            | inr (_, m) ↦ elim m [
              | inl same ↦
                  let k = (mode_eq.beq_iff r.response_mode ResponseMode.dc_api).1 same in cc
              | inr same ↦
                  let k = (mode_eq.beq_iff r.response_mode ResponseMode.dc_api_jwt).1 same in cc
            ]
          ],
        )
      ]
    ]
  ]

  -- A wallet accepts a plain request exactly when it accepts its return URI, or it has none and
  -- its response mode is one of the Digital Credentials API, and it fits the metadata of the
  -- wallet; the request is returned as it is.
  pub verify_request-plain_iff :
      (q r : AuthorizationRequestObject)
      → (verify_request s ms decode_unverified wallet (plain q) ≡ ok r) ↔ (
          AcceptedPlain q
          × (validate_request_against_metadata s ms wallet.metadata q ≡ ok tt)
          × (q ≡ r))
  unfolding verify_request fetch_and_verify
  verify_request-plain_iff q r = (
    λ h.
        let (p, e, k) = >>=-eq-ok (fetch_and_verify s decode_unverified wallet (plain q)) _ h in
        let (fits, same) =
          (then_ok (validate_request_against_metadata s ms wallet.metadata p) p r).0 k in
        let (accepts, alike) = (then_ok (verify_plain s wallet q) q p).0 e in
        ((verify_plain_iff q).0 accepts, rw alike fits, rw alike same),
    λ (accepted, fits, same). rw (verify_request, (verify_plain_iff q).1 accepted, fits, same) refl,
  )

rejects :
    (s : Serde) (split_jws : String → Result Anyhow String) (metadata : WalletMetadata)
    (prefix : ClientIdPrefix) (r : AuthorizationRequestObject) (jwt : String)
    → verify_prefix s (default_wallet s split_jws metadata) prefix r jwt ≢ ok tt
unfolding verify_prefix default_wallet default_redirect_uri_jwt not_supported
rejects s split_jws metadata redirect_uri r jwt h =
    let (signature, e, k) = >>=-eq-ok (map_err _ (split_jws jwt)) _ h in
    elim (Bool-cases (signature == "")) [
      | inl unsigned ↦ elim (Option-cases r.return_uri) [
        | inl none_e ↦ let l = rw (unsigned, none_e) at k in cc
        | inr (url, some_e) ↦ let l = rw (unsigned, some_e) at k in cc
      ]
      | inr signed ↦ let l = rw signed at k in cc
    ]
rejects s split_jws metadata _ r jwt h = cc

-- A wallet that keeps the default body of every verification method accepts no JWT as a request.
pub default_wallet-rejects_jwt :
    (s : Serde) (ms : MetadataSerde) (decode_unverified : String → Result Anyhow UntypedObject)
    (split_jws : String → Result Anyhow String) (metadata : WalletMetadata) (jwt : String)
    (r : AuthorizationRequestObject)
    → verify_request s ms decode_unverified
        (default_wallet s split_jws metadata)
        (unverified_jwt jwt)
      ≢ ok r
default_wallet-rejects_jwt s ms decode_unverified split_jws metadata jwt r h =
    let (_, verified, _) =
      (verify_request-jwt_iff s ms decode_unverified (default_wallet s split_jws metadata) jwt r).0
        h in
    rejects s split_jws metadata r.client_id.prefix r jwt (
      (verify_prefix_iff s (default_wallet s split_jws metadata) r.client_id.prefix r jwt).1
        verified)
