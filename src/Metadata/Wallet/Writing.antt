-- ===== src/Metadata/Wallet/Writing.antt =====
-- The metadata of a wallet written to an object, and read back.
use mathlib.Core.Option as O
use openid4vp.Common.{
  [], Option, ◌↔◌, String, false, List, some, ok, ◌≡◌, ◌≢◌, refl, string_eq, ◌==◌, arith,
}
use openid4vp.Json.{Json, string}
use openid4vp.Object.{UntypedObject, TypedParameter, get, insert}
use openid4vp.Object.Laws.{get-insert}
use openid4vp.Parameters.ResponseType.{ResponseType}
use openid4vp.CredentialFormat.Payload.{ClaimFormatMap}
use openid4vp.AuthorizationRequest.Typed.{Serde}
use openid4vp.Verification.Metadata
use openid4vp.Verification.Metadata.{
  WalletMetadata, MetadataSerde, prefixes_from, parse_prefixes, prefixes_to,
}
use openid4vp.Metadata.Parameters
use openid4vp.Metadata.Parameters.{
  default_client_id_prefixes, default_request_object_algs, default_scopes,
  default_subject_syntax_types, default_id_token_types, default_id_token_algs,
}
use openid4vp.Metadata.Wallet.{new, into_object, try_from}
use openid4vp.Metadata.Wallet.Reading.{Reads, IsReadOr, Reads-try_from, try_from-Reads}

module _ (s : Serde) (ms : MetadataSerde) where
  module _ (w : WalletMetadata) {v : Json}
      (printed : ms.from_formats w.vp_formats_supported ≡ ok v) where
    get-into_object :
        {T : Type 0} (q : TypedParameter T)
        → ("authorization_endpoint" == q.key) ≡ false
        → ("vp_formats_supported" == q.key) ≡ false
        → get q (into_object s ms w) ≡ get q w.inner
    unfolding into_object
    get-into_object q e f =
        let with_endpoint =
          (insert (Parameters.authorization_endpoint s) w.authorization_endpoint w.inner).0 in
        ground (
          arith,
          get-insert (Metadata.vp_formats_supported s ms) q w.vp_formats_supported with_endpoint
              printed,
          get-insert (Parameters.authorization_endpoint s) q w.authorization_endpoint w.inner refl,
        )

    get-into_object_formats :
        get (Metadata.vp_formats_supported s ms) (into_object s ms w) ≡ some (ms.to_formats v)
    unfolding into_object
    get-into_object_formats =
        let with_endpoint =
          (insert (Parameters.authorization_endpoint s) w.authorization_endpoint w.inner).0 in
        get-insert (Metadata.vp_formats_supported s ms) (Metadata.vp_formats_supported s ms)
          w.vp_formats_supported with_endpoint printed

    get-into_object_endpoint :
        get (Parameters.authorization_endpoint s) (into_object s ms w)
        ≡ some (s.to_url (string w.authorization_endpoint))
    unfolding into_object
    get-into_object_endpoint =
        let with_endpoint =
          (insert (Parameters.authorization_endpoint s) w.authorization_endpoint w.inner).0 in
        ground (
          arith,
          get-insert (Metadata.vp_formats_supported s ms) (Parameters.authorization_endpoint s)
              w.vp_formats_supported with_endpoint printed,
          get-insert (Parameters.authorization_endpoint s) (Parameters.authorization_endpoint s)
              w.authorization_endpoint w.inner refl,
        )

    IsReadOr-into_object :
        {T : Type 0} (q : TypedParameter T) (default t : T)
        → ("authorization_endpoint" == q.key) ≡ false
        → ("vp_formats_supported" == q.key) ≡ false
        → IsReadOr q default (into_object s ms w) t ↔ IsReadOr q default w.inner t
    IsReadOr-into_object q default t e f =
        let same = get-into_object q e f in (λ h. rw same at h, λ h. rw same h)

  -- What is read from the object that metadata is written to: the endpoint and the formats of the
  -- metadata, and the rest from its parameters, in which the response types must be.
  pub record Kept (w w' : WalletMetadata) : Type 0 where
    pub inner : w'.inner ≡ into_object s ms w
    pub authorization_endpoint : w'.authorization_endpoint ≡ w.authorization_endpoint
    pub vp_formats_supported : w'.vp_formats_supported ≡ w.vp_formats_supported
    pub response_types_supported :
        get (Parameters.response_types_supported ms) w.inner ≡ some (ok w'.response_types_supported)
    pub client_id_prefixes_supported :
        IsReadOr
          (Metadata.client_id_prefixes_supported s ms)
          default_client_id_prefixes
          w.inner
          w'.client_id_prefixes_supported
    pub request_object_signing_alg_values_supported :
        IsReadOr
          (Parameters.request_object_signing_alg_values_supported ms)
          default_request_object_algs
          w.inner
          w'.request_object_signing_alg_values_supported
    pub scopes_supported :
        IsReadOr (Parameters.scopes_supported ms) default_scopes w.inner w'.scopes_supported
    pub subject_syntax_types_supported :
        IsReadOr
          (Metadata.subject_syntax_types_supported s ms)
          default_subject_syntax_types
          w.inner
          w'.subject_syntax_types_supported
    pub id_token_types_supported :
        IsReadOr
          (Parameters.id_token_types_supported ms)
          default_id_token_types
          w.inner
          w'.id_token_types_supported
    pub id_token_signing_alg_values_supported :
        IsReadOr
          (Parameters.id_token_signing_alg_values_supported ms)
          default_id_token_algs
          w.inner
          w'.id_token_signing_alg_values_supported

  Kept-Reads :
      (w w' : WalletMetadata) {v : Json}
      → s.to_url (string w.authorization_endpoint) ≡ ok w.authorization_endpoint
      → ms.from_formats w.vp_formats_supported ≡ ok v
      → ms.to_formats v ≡ ok w.vp_formats_supported
      → Kept w w'
      → Reads s ms (into_object s ms w) w'
  Kept-Reads w w' url printed parsed k = record {
    inner = k.inner;
    authorization_endpoint = cc (get-into_object_endpoint w printed, k.authorization_endpoint);
    vp_formats_supported = cc (get-into_object_formats w printed, k.vp_formats_supported);
    response_types_supported = cc (
      k.response_types_supported,
      get-into_object w printed (Parameters.response_types_supported ms) refl refl,
    );
    client_id_prefixes_supported =
        (IsReadOr-into_object w printed (Metadata.client_id_prefixes_supported s ms)
            default_client_id_prefixes w'.client_id_prefixes_supported refl refl).1
          k.client_id_prefixes_supported;
    request_object_signing_alg_values_supported =
        (IsReadOr-into_object w printed (Parameters.request_object_signing_alg_values_supported ms)
            default_request_object_algs w'.request_object_signing_alg_values_supported refl refl).1
          k.request_object_signing_alg_values_supported;
    scopes_supported =
        (IsReadOr-into_object w printed (Parameters.scopes_supported ms) default_scopes
            w'.scopes_supported refl refl).1
          k.scopes_supported;
    subject_syntax_types_supported =
        (IsReadOr-into_object w printed (Metadata.subject_syntax_types_supported s ms)
            default_subject_syntax_types w'.subject_syntax_types_supported refl refl).1
          k.subject_syntax_types_supported;
    id_token_types_supported =
        (IsReadOr-into_object w printed (Parameters.id_token_types_supported ms)
            default_id_token_types w'.id_token_types_supported refl refl).1
          k.id_token_types_supported;
    id_token_signing_alg_values_supported =
        (IsReadOr-into_object w printed (Parameters.id_token_signing_alg_values_supported ms)
            default_id_token_algs w'.id_token_signing_alg_values_supported refl refl).1
          k.id_token_signing_alg_values_supported;
  }

  Reads-Kept :
      (w w' : WalletMetadata) {v : Json}
      → s.to_url (string w.authorization_endpoint) ≡ ok w.authorization_endpoint
      → ms.from_formats w.vp_formats_supported ≡ ok v
      → ms.to_formats v ≡ ok w.vp_formats_supported
      → Reads s ms (into_object s ms w) w'
      → Kept w w'
  Reads-Kept w w' url printed parsed r = record {
    inner = r.inner;
    authorization_endpoint = cc (get-into_object_endpoint w printed, r.authorization_endpoint);
    vp_formats_supported = cc (get-into_object_formats w printed, r.vp_formats_supported);
    response_types_supported = cc (
      r.response_types_supported,
      get-into_object w printed (Parameters.response_types_supported ms) refl refl,
    );
    client_id_prefixes_supported =
        (IsReadOr-into_object w printed (Metadata.client_id_prefixes_supported s ms)
            default_client_id_prefixes w'.client_id_prefixes_supported refl refl).0
          r.client_id_prefixes_supported;
    request_object_signing_alg_values_supported =
        (IsReadOr-into_object w printed (Parameters.request_object_signing_alg_values_supported ms)
            default_request_object_algs w'.request_object_signing_alg_values_supported refl refl).0
          r.request_object_signing_alg_values_supported;
    scopes_supported =
        (IsReadOr-into_object w printed (Parameters.scopes_supported ms) default_scopes
            w'.scopes_supported refl refl).0
          r.scopes_supported;
    subject_syntax_types_supported =
        (IsReadOr-into_object w printed (Metadata.subject_syntax_types_supported s ms)
            default_subject_syntax_types w'.subject_syntax_types_supported refl refl).0
          r.subject_syntax_types_supported;
    id_token_types_supported =
        (IsReadOr-into_object w printed (Parameters.id_token_types_supported ms)
            default_id_token_types w'.id_token_types_supported refl refl).0
          r.id_token_types_supported;
    id_token_signing_alg_values_supported =
        (IsReadOr-into_object w printed (Parameters.id_token_signing_alg_values_supported ms)
            default_id_token_algs w'.id_token_signing_alg_values_supported refl refl).0
          r.id_token_signing_alg_values_supported;
  }

  -- Of the object that metadata is written to, exactly this is read back: the endpoint and the
  -- formats of the metadata, the response types that its further parameters hold, which must be
  -- there and be parsed, and each other list that they hold, or its default; where the endpoint and
  -- the formats are read back from their JSON.
  pub try_from-into_object :
      (w w' : WalletMetadata) {v : Json}
      → s.to_url (string w.authorization_endpoint) ≡ ok w.authorization_endpoint
      → ms.from_formats w.vp_formats_supported ≡ ok v
      → ms.to_formats v ≡ ok w.vp_formats_supported
      → (try_from s ms (into_object s ms w) ≡ ok w') ↔ Kept w w'
  try_from-into_object w w' url printed parsed = (
    λ h. Reads-Kept w w' url printed parsed (Reads-try_from s ms (into_object s ms w) w' h),
    λ k. try_from-Reads s ms (into_object s ms w) w' (Kept-Reads w w' url printed parsed k),
  )

  -- Metadata that is made by `new` cannot be read back from its object, whatever response types it
  -- supports, when its further parameters, if any, hold no response types that can be read: those
  -- that it supports are not written.
  pub into_object-new-IsUnreadable :
      (endpoint : String) (formats : ClaimFormatMap) (types : List ResponseType)
      (other : Option UntypedObject) {v : Json} (w : WalletMetadata)
      → ms.from_formats formats ≡ ok v
      → ((ts : List ResponseType)
          → get (Parameters.response_types_supported ms) (O.get_or other (record { map = [] }))
            ≢ some (ok ts))
      → try_from s ms (into_object s ms (new endpoint formats types other)) ≢ ok w
  unfolding new
  into_object-new-IsUnreadable endpoint formats types other {v} w printed untyped h =
      let r = Reads-try_from s ms (into_object s ms (new endpoint formats types other)) w h in
      untyped w.response_types_supported (
        cc (
          r.response_types_supported,
          get-into_object (new endpoint formats types other) printed
              (Parameters.response_types_supported ms) refl refl,
        ))
