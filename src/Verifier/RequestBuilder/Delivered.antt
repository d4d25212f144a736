-- ===== src/Verifier/RequestBuilder/Delivered.antt =====
-- A signed request that is built, read from its URL by a wallet.
use openid4vp.Common.{String, Bool, some, ok, ◌≡◌}
use openid4vp.Object.{UntypedObject, get}
use openid4vp.AuthorizationRequest.Typed.{Serde}
use openid4vp.AuthorizationRequest.Object.{AuthorizationRequestObject, try_from}
use openid4vp.AuthorizationRequest.Url.{Urls, from_url, signed_request}
use openid4vp.AuthorizationRequest.Url.Laws.{IsFaithful, from_url-signed_into_url}
use openid4vp.Metadata.Parameters
use openid4vp.Verification.Metadata.{WalletMetadata, MetadataSerde}
use openid4vp.Verifier.ByReference.{ByReference, signed_jwt}
use openid4vp.Verifier.RequestBuilder.Sent.{sent_request}
use openid4vp.Verifier.RequestBuilder.Built.{build_parts}
use openid4vp.AuthorizationRequest.Object.Laws.{try_from_object_iff}
use openid4vp.Verifier.RequestBuilder.{RequestBuilder, build_parameters, build}

module _ (s : Serde) (ms : MetadataSerde) (urls : Urls) (debug_assertions : Bool) where
  -- A signed request that is built, at the endpoint of the wallet metadata, is read by a wallet
  -- from its URL at that endpoint: it names the client of the verifier, and its JWT, by value or by
  -- reference, is the one that the client generated for the request object that was read from the
  -- parameters; where the form of its entries is read as them, the URL keeps that form as its query
  -- and its other parts as they are, and a URL that it refers to is parsed from its text.
  pub from_url-build :
      (b : RequestBuilder) (w : WalletMetadata) (how : ByReference) (endpoint url jwt : String)
      → IsFaithful urls (sent_request b.verifier.client how jwt) endpoint
      → get (Parameters.authorization_endpoint s) w.inner ≡ some (ok endpoint)
      → build s ms urls debug_assertions b w (signed_jwt how) ≡ ok (url, some jwt)
      → (from_url s urls url endpoint
          ≡ ok (signed_request (sent_request b.verifier.client how jwt)))
        × (p : UntypedObject) × (aro : AuthorizationRequestObject) × (build_parameters s ms b w
              (signed_jwt how)
            ≡ ok p)
        × (try_from s p ≡ ok aro)
        × (b.verifier.client.generate_request_object_jwt aro ≡ ok jwt)
  from_url-build b w how endpoint url jwt faithful given h =
      let (p, aro, at, p_e, accepted, at_e, sent) =
        build_parts s ms urls debug_assertions b w (signed_jwt how) h in
      let (url', jwt', made, written, same) = sent in
      let same_at : at ≡ endpoint = cc in
      let same_jwt : jwt' ≡ jwt = cc in
      let same_url : url' ≡ url = cc in
      (
        from_url-signed_into_url s urls (sent_request b.verifier.client how jwt) endpoint faithful
            (rw (← same_at, ← same_jwt, ← same_url) written),
        p,
        aro,
        p_e,
        (try_from_object_iff s p aro).1 accepted,
        rw (← same_jwt) made,
      )
