-- ===== src/Verification/Validation/Laws.antt =====
-- Which formats and which requests fit the metadata of a wallet.
use mathlib.Core.List.{Memᴰ}
use openid4vp.Common.{
  String, Bool, true, [], ◌∷◌, any, any_of_mem, mem_of_any, Option, some, ok, ◌≡◌, ◌↔◌, refl, inl,
  inr, Bool-cases, Option-cases, Result-cases, arith,
}
use openid4vp.Common.Dict
use openid4vp.Object.{UntypedObject, get, parsing_error}
use openid4vp.CredentialFormat.Designation.{ClaimFormatDesignation, designation_eq}
use openid4vp.CredentialFormat.Payload.{ClaimFormatPayload, ClaimFormatMap}
use openid4vp.CredentialFormat.Payload.Laws.{Overlaps, contains_payload_iff}
use openid4vp.AuthorizationRequest.Typed.{Serde}
use openid4vp.AuthorizationRequest.Object.Matching.{parsing_error_iff}
use openid4vp.Verification.Metadata.{
  WalletMetadata, MetadataSerde, vp_formats_supported, contains_claim_format_with_payload,
}
use openid4vp.Verification.Validation.{check_formats, validate_vp_formats_supported}

-- Some format of the verifier is one of the wallet's, with a payload that overlaps with the
-- wallet's.
abbrev pub Offered : ClaimFormatMap → ClaimFormatMap → Type 0
Offered wallet formats =
    (format : ClaimFormatDesignation) × (payload : ClaimFormatPayload) × Memᴰ (format, payload)
      formats
    × (own : ClaimFormatPayload) × (Dict.lookup format wallet ≡ some own)
    × Overlaps own payload

contains_iff :
    (wallet : ClaimFormatMap) (format : ClaimFormatDesignation) (payload : ClaimFormatPayload)
    → (contains_claim_format_with_payload wallet format payload ≡ true)
      ↔ ((own : ClaimFormatPayload) × (Dict.lookup format wallet ≡ some own) × Overlaps own payload)
unfolding contains_claim_format_with_payload
contains_iff wallet format payload = (
  λ h. elim (Option-cases (Dict.lookup format wallet)) [
    | inl e ↦ let k = rw (contains_claim_format_with_payload, e) at h in cc
    | inr (own, e) ↦ (
      own,
      e,
      (contains_payload_iff own payload).0 (rw (contains_claim_format_with_payload, e) at h),
    )
  ],
  λ (own, e, h).
      rw (contains_claim_format_with_payload, e) ((contains_payload_iff own payload).1 h),
)

module _ (s : Serde) (ms : MetadataSerde) where
  check_formats_iff :
      (formats : ClaimFormatMap) (metadata : WalletMetadata) (state : Option String)
      → (check_formats s ms formats metadata state ≡ ok tt)
        ↔ Offered metadata.vp_formats_supported formats
  unfolding check_formats
  check_formats_iff [] metadata state = (λ h. cc, λ (f, p, m, _, _, _). elim m [ ])
  check_formats_iff (e ∷ es) metadata state =
      let p : ClaimFormatDesignation × ClaimFormatPayload → Bool =
        λ x. contains_claim_format_with_payload metadata.vp_formats_supported x.0 x.1 in
      elim (Bool-cases (any p (e ∷ es))) [
        | inl overlaps ↦ (
          λ _.
              let (x, listed, holds) = mem_of_any p (e ∷ es) overlaps in
              let (own, known, contained) =
                (contains_iff metadata.vp_formats_supported x.0 x.1).0 holds in
              (x.0, x.1, listed, own, known, contained),
          λ _. rw (check_formats, overlaps) refl,
        )
        | inr disjoint ↦ (
          λ h. let k = rw (check_formats, disjoint) at h in cc,
          λ (f, q, listed, own, known, contained).
              let k =
                any_of_mem p listed
                  ((contains_iff metadata.vp_formats_supported f q).1 (own, known, contained)) in
              cc,
        )
      ]

  -- The metadata of a verifier passes exactly when, if formats are read from it, some format
  -- among them is one of the wallet's, with a payload that overlaps with the wallet's.
  pub validate_vp_formats_supported_iff :
      (client_metadata : UntypedObject) (metadata : WalletMetadata) (state : Option String)
      → (validate_vp_formats_supported s ms client_metadata metadata state ≡ ok tt) ↔ (
          ((formats : ClaimFormatMap)
            → get (vp_formats_supported s ms) client_metadata ≡ some (ok formats)
            → Offered metadata.vp_formats_supported formats))
  unfolding validate_vp_formats_supported
  validate_vp_formats_supported_iff client_metadata metadata state =
      let p = vp_formats_supported s ms in
      elim (Result-cases (parsing_error p (get p client_metadata))) [
        | inl (formats, e) ↦
            let read = (parsing_error_iff p (get p client_metadata)).0 e in
            (
              λ h fs f.
                  let same : formats ≡ fs = ground arith in
                  rw (← same) (
                    (check_formats_iff formats metadata state).0
                      (rw (validate_vp_formats_supported, e) at h)),
              λ h.
                  rw (validate_vp_formats_supported, e)
                    ((check_formats_iff formats metadata state).1 (h formats read)),
            )
        | inr (f, e) ↦ (
          λ h fs g. let k = (parsing_error_iff p (get p client_metadata)).1 g in cc,
          λ h. rw (validate_vp_formats_supported, e) refl,
        )
      ]
