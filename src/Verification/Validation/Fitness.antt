-- ===== src/Verification/Validation/Fitness.antt =====
-- Which requests fit the metadata of a wallet.
use openid4vp.Common.{
  String, true, List, [], ◌∷◌, contains, Option, some, none, ok, err, >>=-eq-ok, ◌==◌, string_eq,
  ◌≡◌, ◌↔◌, ◌∙◌, sym, ◌⊎◌, inl, inr, refl, All, Bool-cases, Option-cases, Result-cases, arith,
}
use openid4vp.Common.Dict
use openid4vp.Error.{internal}
use openid4vp.Object.{UntypedObject, TypedParameter, get, get_or_default}
use openid4vp.Parameters.Prefix.{ClientIdPrefix, prefix_eq, pre_registered}
use openid4vp.Parameters.ResponseType.{ResponseType, type_eq}
use openid4vp.CredentialFormat.Payload.{ClaimFormatMap}
use openid4vp.AuthorizationRequest.Typed
use openid4vp.AuthorizationRequest.Typed.{Serde}
use openid4vp.AuthorizationRequest.Object.{AuthorizationRequestObject, lift, read_state}
use openid4vp.AuthorizationRequest.Object.Matching.{map_err_iff}
use openid4vp.Verification.Metadata.{
  WalletMetadata, MetadataSerde, client_id_prefixes_supported, subject_syntax_types_supported,
  vp_formats_supported,
}
use openid4vp.Verification.Validation.{
  check_syntax_types, check_id_token, validate_response_type, resolve_client_metadata, check_prefix,
  validate_request_against_metadata,
}
use openid4vp.Verification.Validation.Laws.{Offered, validate_vp_formats_supported_iff}

-- The value of a parameter that is there, which must be parsed, or the default of one that is not.
abbrev pub IsGivenOr : {T : Type 0} → TypedParameter T → T → UntypedObject → T → Type 0
IsGivenOr p default o t = (get p o ≡ some (ok t)) ⊎ ((get p o ≡ none) × (t ≡ default))

get_or_default_iff :
    {T : Type 0} (p : TypedParameter T) (default : T) (o : UntypedObject) (t : T)
    → (get_or_default p default o ≡ ok t) ↔ IsGivenOr p default o t
unfolding get_or_default get
get_or_default_iff p default o t = elim (Option-cases (Dict.lookup p.key o.map)) [
  | inl e ↦ rw e (λ h. inr (refl, cc), λ h. elim h [ inl f ↦ absurd (cc) | inr (_, same) ↦ cc ])
  | inr (v, e) ↦ elim (Result-cases (p.try_from v)) [
    | inl (u, read) ↦
        rw (e, read) (λ h. inl (cc), λ h. elim h [ inl f ↦ cc | inr (f, _) ↦ absurd (cc) ])
    | inr (x, read) ↦
        rw (e, read)
          (λ h. absurd (cc), λ h. elim h [ inl f ↦ absurd (cc) | inr (f, _) ↦ absurd (cc) ])
  ]
]

module _ (s : Serde) (ms : MetadataSerde) where
  check_syntax_types_iff :
      (types : List String) (metadata : WalletMetadata) (state : Option String)
      → (check_syntax_types s ms types metadata state ≡ ok tt)
        ↔ All (λ t. contains metadata.subject_syntax_types_supported t ≡ true) types
  unfolding check_syntax_types
  check_syntax_types_iff [] metadata state = (λ _. tt, λ _. refl)
  check_syntax_types_iff (t ∷ ts) metadata state =
      elim (Bool-cases (contains metadata.subject_syntax_types_supported t)) [
        | inl e ↦ rw e (
          λ h. (refl, (check_syntax_types_iff ts metadata state).0 h),
          λ (_, h). (check_syntax_types_iff ts metadata state).1 h,
        )
        | inr e ↦ rw e (λ h. absurd (cc), λ (h, _). absurd (cc))
      ]

  -- The verifier names syntax types in its metadata, and the wallet supports all of them.
  abbrev pub HasSyntaxTypes : WalletMetadata → AuthorizationRequestObject → Type 0
  HasSyntaxTypes metadata r =
      (client_metadata : UntypedObject) × (types : List String) × (get (Typed.client_metadata s)
          r.inner
        ≡ some (ok client_metadata))
      × (get (subject_syntax_types_supported s ms) client_metadata ≡ some (ok types))
      × All (λ t. contains metadata.subject_syntax_types_supported t ≡ true) types

  check_id_token_iff :
      (r : AuthorizationRequestObject) (metadata : WalletMetadata) (state : Option String)
      → (check_id_token s ms r metadata state ≡ ok tt) ↔ HasSyntaxTypes metadata r
  unfolding check_id_token
  check_id_token_iff r metadata state = (
    λ h. elim (Option-cases (get (Typed.client_metadata s) r.inner)) [
      | inl e ↦ let k = rw (check_id_token, e) at h in absurd (cc)
      | inr (err x, e) ↦ let k = rw (check_id_token, e) at h in absurd (cc)
      | inr (ok cm, e) ↦
          let k = rw (check_id_token, e) at h in
          elim (Option-cases (get (subject_syntax_types_supported s ms) cm)) [
            | inl f ↦ let l = rw f at k in absurd (cc)
            | inr (err x, f) ↦ let l = rw f at k in absurd (cc)
            | inr (ok types, f) ↦
                (cm, types, e, f, (check_syntax_types_iff types metadata state).0 (rw f at k))
          ]
    ],
    λ (cm, types, e, f, supported).
        rw (check_id_token, e, f) ((check_syntax_types_iff types metadata state).1 supported),
  )

  -- The response type of the request is one of the wallet's, and with `vp_token id_token` the
  -- wallet supports the syntax types that the verifier names.
  abbrev pub HasResponseType : WalletMetadata → AuthorizationRequestObject → Type 0
  HasResponseType metadata r =
      (t : ResponseType) × (get (Typed.response_type s) r.inner ≡ some (ok t))
      × (contains metadata.response_types_supported t ≡ true)
      × (t ≡ ResponseType.vp_token_id_token → HasSyntaxTypes metadata r)

  validate_response_type_iff :
      (metadata : WalletMetadata) (r : AuthorizationRequestObject)
      → (validate_response_type s ms r metadata ≡ ok tt) ↔ HasResponseType metadata r
  unfolding validate_response_type
  validate_response_type_iff metadata r =
      elim (Option-cases (get (Typed.response_type s) r.inner)) [
        | inl e ↦ (
          λ h. let k = rw (validate_response_type, e) at h in absurd (cc),
          λ (t, f, _, _). absurd (cc),
        )
        | inr (err x, e) ↦ (
          λ h. let k = rw (validate_response_type, e) at h in absurd (cc),
          λ (t, f, _, _). absurd (cc),
        )
        | inr (ok t, e) ↦ elim (Bool-cases (contains metadata.response_types_supported t)) [
          | inr unlisted ↦ (
            λ h. let k = rw (validate_response_type, e, unlisted) at h in absurd (cc),
            λ (u, f, listed, _). let same : t ≡ u = ground arith in absurd (ground arith),
          )
          | inl listed ↦ elim (Bool-cases (ResponseType.vp_token_id_token == t)) [
            | inl is_id ↦ (
              λ h. (
                t,
                e,
                listed,
                λ _.
                    (check_id_token_iff r metadata (read_state s r.inner)).0
                      (rw (validate_response_type, e, listed, is_id) at h),
              ),
              λ (u, f, _, types).
                  let same : u ≡ t = ground arith in
                  let id : u ≡ ResponseType.vp_token_id_token =
                    same ∙ sym ((type_eq.beq_iff ResponseType.vp_token_id_token t).0 is_id) in
                  rw (validate_response_type, e, listed, is_id)
                    ((check_id_token_iff r metadata (read_state s r.inner)).1 (types id)),
            )
            | inr not_id ↦ (
              λ h. (
                t,
                e,
                listed,
                λ same.
                    let k = (type_eq.beq_iff ResponseType.vp_token_id_token t).1 (sym same) in
                    absurd (cc),
              ),
              λ _. rw (validate_response_type, e, listed, not_id) refl,
            )
          ]
        ]
      ]

  -- The metadata of the verifier, which is empty where the request has none.
  abbrev pub HasMetadata : AuthorizationRequestObject → UntypedObject → Type 0
  HasMetadata r client_metadata =
      IsGivenOr (Typed.client_metadata s) (record { map = [] }) r.inner client_metadata

  resolve_client_metadata_iff :
      (r : AuthorizationRequestObject) (client_metadata : UntypedObject)
      → (resolve_client_metadata s ms r ≡ ok client_metadata) ↔ HasMetadata r client_metadata
  unfolding resolve_client_metadata
  resolve_client_metadata_iff r client_metadata =
      elim (Option-cases (get (Typed.client_metadata s) r.inner)) [
        | inl e ↦ (
          λ h. let k = rw (resolve_client_metadata, e) at h in inr (e, cc),
          λ h. elim h [
            | inl f ↦ absurd (cc)
            | inr (_, same) ↦ rw (resolve_client_metadata, e, same) refl
          ],
        )
        | inr (v, e) ↦ (
          λ h. let k = rw (resolve_client_metadata, e) at h in inl (rw k at e),
          λ h. elim h [ inl f ↦ rw (resolve_client_metadata, f) refl | inr (f, _) ↦ absurd (cc) ],
        )
      ]

  check_prefix_iff :
      (prefixes : List ClientIdPrefix) (prefix : ClientIdPrefix) (state : Option String)
      → (check_prefix s ms prefixes prefix state ≡ ok tt) ↔ (contains prefixes prefix ≡ true)
  unfolding check_prefix
  check_prefix_iff prefixes prefix state = elim (Bool-cases (contains prefixes prefix)) [
    | inl listed ↦ (λ _. listed, λ _. rw (check_prefix, listed) refl)
    | inr unlisted ↦
        (λ h. let k = rw (check_prefix, unlisted) at h in absurd (cc), λ h. absurd (cc))
  ]

  -- The wallet supports the prefix of the client identifier (only `pre-registered` where its
  -- metadata lists none), the response type, and, where the metadata of the verifier has formats
  -- that are read, some format of them.
  pub record Fits (metadata : WalletMetadata) (r : AuthorizationRequestObject) : Type 0 where
    pub prefix :
        (prefixes : List ClientIdPrefix) × IsGivenOr
          (client_id_prefixes_supported s ms)
          (pre_registered ∷ [])
          metadata.inner
          prefixes
        × (contains prefixes r.client_id.prefix ≡ true)
    pub response_type : HasResponseType metadata r
    pub formats :
        (client_metadata : UntypedObject) × HasMetadata r client_metadata
        × ((formats : ClaimFormatMap)
            → get (vp_formats_supported s ms) client_metadata ≡ some (ok formats)
            → Offered metadata.vp_formats_supported formats)

  pub validate_request_against_metadata_iff :
      (metadata : WalletMetadata) (r : AuthorizationRequestObject)
      → (validate_request_against_metadata s ms metadata r ≡ ok tt) ↔ Fits metadata r
  unfolding validate_request_against_metadata
  validate_request_against_metadata_iff metadata r =
      let state = read_state s r.inner in
      let p = client_id_prefixes_supported s ms in
      let given = get_or_default p (pre_registered ∷ []) metadata.inner in
      (
        λ h.
            let (prefixes, e, k) = >>=-eq-ok (lift given) _ h in
            let (u, listed, l) =
              >>=-eq-ok (check_prefix s ms prefixes r.client_id.prefix state) _ k in
            let (v, typed, m) = >>=-eq-ok (validate_response_type s ms r metadata) _ l in
            let (cm, found, n) = >>=-eq-ok (lift (resolve_client_metadata s ms r)) _ m in
            record {
              prefix = (
                prefixes,
                (get_or_default_iff p (pre_registered ∷ []) metadata.inner prefixes).0
                    ((map_err_iff internal given).0 e),
                (check_prefix_iff prefixes r.client_id.prefix state).0 listed,
              );
              response_type = (validate_response_type_iff metadata r).0 typed;
              formats = (
                cm,
                (resolve_client_metadata_iff r cm).0
                    ((map_err_iff internal (resolve_client_metadata s ms r)).0 found),
                (validate_vp_formats_supported_iff s ms cm metadata state).0 n,
              );
            },
        λ fits.
            let (prefixes, e, listed) = fits.prefix in
            let (cm, found, offered) = fits.formats in
            rw
              (
                validate_request_against_metadata,
                lift,
                (get_or_default_iff p (pre_registered ∷ []) metadata.inner prefixes).1 e,
                (check_prefix_iff prefixes r.client_id.prefix state).1 listed,
                (validate_response_type_iff metadata r).1 fits.response_type,
                (resolve_client_metadata_iff r cm).1 found,
              )
              ((validate_vp_formats_supported_iff s ms cm metadata state).1 offered),
      )
