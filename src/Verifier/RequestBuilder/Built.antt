-- ===== src/Verifier/RequestBuilder/Built.antt =====
-- What is sent when a request is built, and the requests that cannot be built.
use openid4vp.Common.{
  String, Bool, Option, some, ok, ◌≡◌, ◌≢◌, refl, ◌∙◌, >>=-eq-ok, string_eq, map_err,
}
use openid4vp.Object.{UntypedObject, get, insert, parsing_error}
use openid4vp.Parameters.ResponseMode.{ResponseMode}
use openid4vp.Parameters.ResponseType.{ResponseType, type_eq}
use openid4vp.AuthorizationRequest.Typed
use openid4vp.AuthorizationRequest.Typed.{Serde}
use openid4vp.AuthorizationRequest.Object.{AuthorizationRequestObject, lift, try_from}
use openid4vp.AuthorizationRequest.Object.Matching.{map_err_iff, parsing_error_iff}
use openid4vp.AuthorizationRequest.Object.Laws.{Accepted, try_from_object_iff}
use openid4vp.AuthorizationRequest.Url.{Urls}
use openid4vp.Verification.Metadata.{WalletMetadata, MetadataSerde}
use openid4vp.Metadata.Parameters
use openid4vp.Verifier.ByReference.{RequestType, plain}
use openid4vp.Verifier.RequestBuilder.{
  RequestBuilder, build_helper, insert_query, check_prefix, validate_response_type,
  build_parameters, build,
}
use openid4vp.Verifier.RequestBuilder.Laws.{get-insert_other, get-insert_query, build_helper_lem}
use openid4vp.Verifier.RequestBuilder.Sent.{IsSent, send-IsSent}
use openid4vp.Verifier.RequestBuilder.Returns.{IsDcApi, Returning-unnamed}

module _ (s : Serde) (ms : MetadataSerde) where
  build_parameters_lem :
      (b : RequestBuilder) (w : WalletMetadata) (t : RequestType) {p : UntypedObject}
      → build_parameters s ms b w t ≡ ok p
      → (queried : UntypedObject) × (insert_query s b.dcql b.presentation_definition
            (insert (Typed.client_id s) b.verifier.client.id b.request_parameters).0
          ≡ ok queried)
        × (validate_response_type s ms queried w ≡ ok tt)
        × (check_prefix w b.verifier.client.prefix ≡ ok tt)
        × (build_helper s b.verifier.submission_endpoint t queried ≡ ok p)
  unfolding build_parameters
  build_parameters_lem b w t h =
      let (queried, q_e, h₁) =
        >>=-eq-ok
          (insert_query s b.dcql b.presentation_definition
            (insert (Typed.client_id s) b.verifier.client.id b.request_parameters).0)
          _ h in
      let (u, t_e, h₂) = >>=-eq-ok (validate_response_type s ms queried w) _ h₁ in
      let (v, p_e, h₃) = >>=-eq-ok (check_prefix w b.verifier.client.prefix) _ h₂ in
      (queried, q_e, t_e, p_e, h₃)

  module _ (b : RequestBuilder) {queried : UntypedObject}
      (inserted : insert_query s b.dcql b.presentation_definition
          (insert (Typed.client_id s) b.verifier.client.id b.request_parameters).0
        ≡ ok queried) where
    -- The mode that is read is the one among the parameters of the builder.
    queried_mode :
        get (Typed.response_mode s) queried ≡ get (Typed.response_mode s) b.request_parameters
    queried_mode =
        get-insert_query s (Typed.response_mode s) b.dcql b.presentation_definition _ queried refl
          refl inserted
        ∙ get-insert_other (Typed.client_id s) (Typed.response_mode s) b.verifier.client.id
            b.request_parameters refl

module _ (s : Serde) (ms : MetadataSerde) (urls : Urls) (debug_assertions : Bool) where
  -- What a request that is built was read from.
  pub build_parts :
      (b : RequestBuilder) (w : WalletMetadata) (t : RequestType) {r : String × Option String}
      → build s ms urls debug_assertions b w t ≡ ok r
      → (p : UntypedObject) × (aro : AuthorizationRequestObject) × (endpoint : String)
        × (build_parameters s ms b w t ≡ ok p)
        × Accepted s p aro
        × (get (Parameters.authorization_endpoint s) w.inner ≡ some (ok endpoint))
        × IsSent urls b.verifier.client endpoint aro t r
  unfolding build
  build_parts b w t h =
      let (p, p_e, h₁) = >>=-eq-ok (build_parameters s ms b w t) _ h in
      let (aro, aro_e, h₂) = >>=-eq-ok (map_err _ (try_from s p)) _ h₁ in
      let e = Parameters.authorization_endpoint s in
      let (at, at_e, h₃) = >>=-eq-ok (lift (parsing_error e (get e w.inner))) _ h₂ in
      let given =
        (parsing_error_iff e (get e w.inner)).0
          ((map_err_iff _ (parsing_error e (get e w.inner))).0 at_e) in
      (
        p,
        aro,
        at,
        p_e,
        (try_from_object_iff s p aro).0 ((map_err_iff _ (try_from s p)).0 aro_e),
        given,
        send-IsSent urls debug_assertions b.verifier.client at aro t h₃,
      )

  -- A plain request in a response mode of the Digital Credentials API is never built: the builder
  -- removes the client identifier, which the request object needs.
  pub build-plain-dc_api :
      (b : RequestBuilder) (w : WalletMetadata) (mode : ResponseMode) (r : String × Option String)
      → get (Typed.response_mode s) b.request_parameters ≡ some (ok mode)
      → IsDcApi mode
      → build s ms urls debug_assertions b w plain ≢ ok r
  build-plain-dc_api b w mode r mode_e dc h =
      let (p, aro, at, p_e, accepted, at_e, sent) = build_parts b w plain h in
      let (queried, q_e, t_e, prefix_e, done) = build_parameters_lem s ms b w plain p_e in
      let (mode', read, returning) =
        build_helper_lem s b.verifier.submission_endpoint plain queried done in
      let same : mode' ≡ mode = cc (queried_mode s ms b q_e) in
      cc (
        accepted.client_id,
        Returning-unnamed s b.verifier.submission_endpoint queried p mode (dc)
            (rw same at returning),
      )
