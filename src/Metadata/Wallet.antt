-- ===== src/Metadata/Wallet.antt =====
-- core/metadata/mod.rs: `WalletMetadata`, its additions, and its conversions.
pub mod Reading
pub mod Writing
pub mod Additions
use openid4vp.Common.{
  String, Bool, List, [], ◌∷◌, ◌++◌, Option, none, Result, ok, Anyhow, ◌>>=◌, result_or, contains,
  string_eq,
}
use mathlib.Core.Option as O
use openid4vp.Common.Dict
use openid4vp.Object.{UntypedObject, TypedParameter, get, get_or_default, insert, parsing_error}
use openid4vp.Parameters.Prefix.{ClientIdPrefix, prefix_eq}
use openid4vp.Parameters.ResponseType
use openid4vp.Parameters.ResponseType.{ResponseType}
use openid4vp.CredentialFormat.Designation.{designation_eq, jwt_vp_json, jwt_vc_json}
use openid4vp.CredentialFormat.Payload.{ClaimFormatMap, alg_values_supported}
use openid4vp.AuthorizationRequest.Typed.{Serde}
use openid4vp.Verification.Metadata
use openid4vp.Verification.Metadata.{WalletMetadata, MetadataSerde}
use openid4vp.Metadata.Parameters
use openid4vp.Metadata.Parameters.{
  default_client_id_prefixes, default_request_object_algs, default_scopes,
  default_subject_syntax_types, default_id_token_types, default_id_token_algs,
}

unfoldable pub new :
    String → ClaimFormatMap → List ResponseType → Option UntypedObject → WalletMetadata
new authorization_endpoint vp_formats_supported response_types_supported other = record {
  inner = O.get_or other (record { map = [] });
  authorization_endpoint = authorization_endpoint;
  vp_formats_supported = vp_formats_supported;
  response_types_supported = response_types_supported;
  client_id_prefixes_supported = default_client_id_prefixes;
  request_object_signing_alg_values_supported = default_request_object_algs;
  scopes_supported = default_scopes;
  subject_syntax_types_supported = default_subject_syntax_types;
  id_token_types_supported = default_id_token_types;
  id_token_signing_alg_values_supported = default_id_token_algs;
}

unfoldable pub is_client_id_prefix_supported : WalletMetadata → ClientIdPrefix → Bool
is_client_id_prefix_supported w prefix = contains w.client_id_prefixes_supported prefix

-- `value.get().parsing_error()`
unfoldable pub required : {T : Type 0} → TypedParameter T → UntypedObject → Result Anyhow T
unfolding get parsing_error
required p value = parsing_error p (get p value)

-- `value.get().parsing_error().unwrap_or_default()`
unfoldable pub optional : {T : Type 0} → TypedParameter T → T → UntypedObject → T
unfolding required
optional p default value = result_or default (required p value)

module _ (s : Serde) (ms : MetadataSerde) where
  unfoldable pub add_request_object_signing_alg_values_supported :
      WalletMetadata → String → Result Anyhow WalletMetadata
  unfolding get_or_default insert
  add_request_object_signing_alg_values_supported w alg = do
    let p = Parameters.request_object_signing_alg_values_supported ms
    supported ← get_or_default p default_request_object_algs w.inner
    ok (record w { inner = (insert p (supported ++ (alg ∷ [])) w.inner).0 })

  unfoldable pub add_client_id_prefixes_supported :
      WalletMetadata → List ClientIdPrefix → Result Anyhow WalletMetadata
  unfolding get_or_default insert
  add_client_id_prefixes_supported w prefixes = do
    let p = Metadata.client_id_prefixes_supported s ms
    supported ← get_or_default p default_client_id_prefixes w.inner
    ok (record w { inner = (insert p (supported ++ prefixes) w.inner).0 })

  -- `From<WalletMetadata> for UntypedObject`
  unfoldable pub into_object : WalletMetadata → UntypedObject
  unfolding insert
  into_object w =
      let with_endpoint =
        (insert (Parameters.authorization_endpoint s) w.authorization_endpoint w.inner).0 in
      (insert (Metadata.vp_formats_supported s ms) w.vp_formats_supported with_endpoint).0

  -- `TryFrom<UntypedObject> for WalletMetadata`
  unfoldable pub try_from : UntypedObject → Result Anyhow WalletMetadata
  unfolding required optional
  try_from value = do
    endpoint ← required (Parameters.authorization_endpoint s) value
    formats ← required (Metadata.vp_formats_supported s ms) value
    types ← required (Parameters.response_types_supported ms) value
    ok (record {
      inner = value;
      authorization_endpoint = endpoint;
      vp_formats_supported = formats;
      response_types_supported = types;
      client_id_prefixes_supported =
          optional (Metadata.client_id_prefixes_supported s ms) default_client_id_prefixes value;
      request_object_signing_alg_values_supported =
          optional (Parameters.request_object_signing_alg_values_supported ms)
            default_request_object_algs value;
      scopes_supported = optional (Parameters.scopes_supported ms) default_scopes value;
      subject_syntax_types_supported =
          optional (Metadata.subject_syntax_types_supported s ms) default_subject_syntax_types
            value;
      id_token_types_supported =
          optional (Parameters.id_token_types_supported ms) default_id_token_types value;
      id_token_signing_alg_values_supported =
          optional (Parameters.id_token_signing_alg_values_supported ms) default_id_token_algs
            value;
    })

  -- `openid4vp_scheme_static`, up to its `unwrap`.
  unfoldable pub openid4vp_scheme_static : Result Anyhow WalletMetadata
  unfolding try_from insert Dict.insert
  openid4vp_scheme_static =
      let algs = "ES256" ∷ [] in
      let formats : ClaimFormatMap =
        Dict.insert jwt_vc_json (alg_values_supported algs)
          (Dict.insert jwt_vp_json (alg_values_supported algs) []) in
      let o = (insert (Parameters.authorization_endpoint s) "openid4vp:" (record { map = [] })).0 in
      let o = (insert (Parameters.response_types_supported ms) (ResponseType.vp_token ∷ []) o).0 in
      let o = (insert (Metadata.vp_formats_supported s ms) formats o).0 in
      let o = (insert (Parameters.request_object_signing_alg_values_supported ms) algs o).0 in
      try_from o
