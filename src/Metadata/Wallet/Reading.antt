-- ===== src/Metadata/Wallet/Reading.antt =====
-- What is read from an object as the metadata of a wallet.
use openid4vp.Common.{
  some, ok, ◌≡◌, ◌≢◌, ◌↔◌, ◌⊎◌, inl, inr, refl, >>=-eq-ok, Result-cases, string_eq,
}
use openid4vp.Object.{UntypedObject, TypedParameter, get}
use openid4vp.AuthorizationRequest.Typed.{Serde}
use openid4vp.Verification.Metadata
use openid4vp.Verification.Metadata.{
  WalletMetadata, MetadataSerde, prefixes_from, parse_prefixes, prefixes_to,
}
use openid4vp.AuthorizationRequest.Object.Matching.{parsing_error_iff}
use openid4vp.Metadata.Parameters
use openid4vp.Metadata.Parameters.{
  default_client_id_prefixes, default_request_object_algs, default_scopes,
  default_subject_syntax_types, default_id_token_types, default_id_token_algs,
}
use openid4vp.Metadata.Wallet.{required, optional, try_from}

pub required_iff :
    {T : Type 0} (p : TypedParameter T) (o : UntypedObject) {t : T}
    → (required p o ≡ ok t) ↔ (get p o ≡ some (ok t))
unfolding required
required_iff p o = parsing_error_iff p (get p o)

-- The value of a parameter that is there and is parsed, and the default of any other.
abbrev pub IsReadOr : {T : Type 0} → TypedParameter T → T → UntypedObject → T → Type 0
IsReadOr {T} p default o t =
    (get p o ≡ some (ok t)) ⊎ (((u : T) → get p o ≢ some (ok u)) × (t ≡ default))

pub optional_iff :
    {T : Type 0} (p : TypedParameter T) (default t : T) (o : UntypedObject)
    → (t ≡ optional p default o) ↔ IsReadOr p default o t
unfolding optional
optional_iff p default t o = elim (Result-cases (required p o)) [
  | inl (u, e) ↦ (
    λ h. inl (let read = (required_iff p o).0 e in rw (h, optional, e) read),
    λ h. elim h [
      | inl read ↦ let again = (required_iff p o).1 read in rw (optional, again) refl
      | inr (unread, _) ↦ absurd (unread u ((required_iff p o).0 e))
    ],
  )
  | inr (x, e) ↦ (
    λ h. inr (λ u read. let again = (required_iff p o).1 read in cc, rw (h, optional, e) refl),
    λ h. elim h [
      | inl read ↦ let again = (required_iff p o).1 read in absurd (cc)
      | inr (_, same) ↦ rw (optional, e) same
    ],
  )
]

-- What is read from an object as the metadata of a wallet: three parameters must be there and be
-- parsed, and the others are the defaults where they are not there or cannot be parsed.
pub record Reads (s : Serde) (ms : MetadataSerde) (o : UntypedObject) (w : WalletMetadata)
    : Type 0 where
  pub inner : w.inner ≡ o
  pub authorization_endpoint :
      get (Parameters.authorization_endpoint s) o ≡ some (ok w.authorization_endpoint)
  pub vp_formats_supported :
      get (Metadata.vp_formats_supported s ms) o ≡ some (ok w.vp_formats_supported)
  pub response_types_supported :
      get (Parameters.response_types_supported ms) o ≡ some (ok w.response_types_supported)
  pub client_id_prefixes_supported :
      IsReadOr
        (Metadata.client_id_prefixes_supported s ms)
        default_client_id_prefixes
        o
        w.client_id_prefixes_supported
  pub request_object_signing_alg_values_supported :
      IsReadOr
        (Parameters.request_object_signing_alg_values_supported ms)
        default_request_object_algs
        o
        w.request_object_signing_alg_values_supported
  pub scopes_supported :
      IsReadOr (Parameters.scopes_supported ms) default_scopes o w.scopes_supported
  pub subject_syntax_types_supported :
      IsReadOr
        (Metadata.subject_syntax_types_supported s ms)
        default_subject_syntax_types
        o
        w.subject_syntax_types_supported
  pub id_token_types_supported :
      IsReadOr
        (Parameters.id_token_types_supported ms)
        default_id_token_types
        o
        w.id_token_types_supported
  pub id_token_signing_alg_values_supported :
      IsReadOr
        (Parameters.id_token_signing_alg_values_supported ms)
        default_id_token_algs
        o
        w.id_token_signing_alg_values_supported

module _ (s : Serde) (ms : MetadataSerde) where
  pub Reads-try_from :
      (o : UntypedObject) (w : WalletMetadata) → try_from s ms o ≡ ok w → Reads s ms o w
  unfolding try_from
  Reads-try_from o w h =
      let (e, e_read, h₁) = >>=-eq-ok (required (Parameters.authorization_endpoint s) o) _ h in
      let (f, f_read, h₂) = >>=-eq-ok (required (Metadata.vp_formats_supported s ms) o) _ h₁ in
      let (t, t_read, h₃) = >>=-eq-ok (required (Parameters.response_types_supported ms) o) _ h₂ in
      record {
        inner = cc;
        authorization_endpoint =
            cc ((required_iff (Parameters.authorization_endpoint s) o).0 e_read);
        vp_formats_supported = cc ((required_iff (Metadata.vp_formats_supported s ms) o).0 f_read);
        response_types_supported =
            cc ((required_iff (Parameters.response_types_supported ms) o).0 t_read);
        client_id_prefixes_supported =
            (optional_iff (Metadata.client_id_prefixes_supported s ms) default_client_id_prefixes
                w.client_id_prefixes_supported o).0
              (cc);
        request_object_signing_alg_values_supported =
            (optional_iff (Parameters.request_object_signing_alg_values_supported ms)
                default_request_object_algs w.request_object_signing_alg_values_supported o).0
              (cc);
        scopes_supported =
            (optional_iff (Parameters.scopes_supported ms) default_scopes w.scopes_supported o).0
              (cc);
        subject_syntax_types_supported =
            (optional_iff (Metadata.subject_syntax_types_supported s ms)
                default_subject_syntax_types w.subject_syntax_types_supported o).0
              (cc);
        id_token_types_supported =
            (optional_iff (Parameters.id_token_types_supported ms) default_id_token_types
                w.id_token_types_supported o).0
              (cc);
        id_token_signing_alg_values_supported =
            (optional_iff (Parameters.id_token_signing_alg_values_supported ms)
                default_id_token_algs w.id_token_signing_alg_values_supported o).0
              (cc);
      }

  pub try_from-Reads :
      (o : UntypedObject) (w : WalletMetadata) → Reads s ms o w → try_from s ms o ≡ ok w
  unfolding try_from
  try_from-Reads o w r =
      rw
        (
          try_from,
          (required_iff (Parameters.authorization_endpoint s) o).1 r.authorization_endpoint,
          (required_iff (Metadata.vp_formats_supported s ms) o).1 r.vp_formats_supported,
          (required_iff (Parameters.response_types_supported ms) o).1 r.response_types_supported,
          ← r.inner,
        )
        (cc (
          (optional_iff (Metadata.client_id_prefixes_supported s ms) default_client_id_prefixes
                w.client_id_prefixes_supported o).1
              r.client_id_prefixes_supported,
          (optional_iff (Parameters.request_object_signing_alg_values_supported ms)
                default_request_object_algs w.request_object_signing_alg_values_supported o).1
              r.request_object_signing_alg_values_supported,
          (optional_iff (Parameters.scopes_supported ms) default_scopes w.scopes_supported o).1
              r.scopes_supported,
          (optional_iff (Metadata.subject_syntax_types_supported s ms) default_subject_syntax_types
                w.subject_syntax_types_supported o).1
              r.subject_syntax_types_supported,
          (optional_iff (Parameters.id_token_types_supported ms) default_id_token_types
                w.id_token_types_supported o).1
              r.id_token_types_supported,
          (optional_iff (Parameters.id_token_signing_alg_values_supported ms) default_id_token_algs
                w.id_token_signing_alg_values_supported o).1
              r.id_token_signing_alg_values_supported,
        ))

  -- An object is read as the metadata of a wallet exactly when the endpoint, the formats and the
  -- response types are there and are parsed; each other list is its default where it is missing
  -- or cannot be parsed.
  pub try_from_metadata_iff :
      (o : UntypedObject) (w : WalletMetadata) → (try_from s ms o ≡ ok w) ↔ Reads s ms o w
  try_from_metadata_iff o w = (Reads-try_from o w, try_from-Reads o w)
