-- ===== src/Metadata/Parameters.antt =====
-- core/metadata/parameters: the typed parameters and their defaults. A parameter that wraps a text,
-- a URL or a list is what it wraps.
use openid4vp.Common.{
  String, Bool, false, List, [], ◌∷◌, map as vec_map, some, Result, map_ok, contains, string_eq,
}
use openid4vp.Common.Dict
use openid4vp.Json.{string, array, of_items}
use openid4vp.Object.{TypedParameter}
use openid4vp.Parameters.Prefix.{ClientIdPrefix, pre_registered}
use openid4vp.Parameters.ResponseType
use openid4vp.Parameters.ResponseType.{ResponseType}
use openid4vp.CredentialFormat.Designation.{ClaimFormatDesignation, designation_eq}
use openid4vp.CredentialFormat.Payload.{ClaimFormatMap, alg, alg_values_supported, proof_type}
use openid4vp.AuthorizationRequest.Typed.{Serde}
use openid4vp.Verification.Metadata.{MetadataSerde}

-- `Default for ResponseTypesSupported`, and so on.
abbrev pub default_response_types : List ResponseType
default_response_types = ResponseType.vp_token ∷ []

abbrev pub default_client_id_prefixes : List ClientIdPrefix
default_client_id_prefixes = pre_registered ∷ []

abbrev pub default_request_object_algs : List String
default_request_object_algs = "ES256" ∷ []

abbrev pub default_scopes : List String
default_scopes = "openid" ∷ []

abbrev pub default_subject_syntax_types : List String
default_subject_syntax_types = "urn:ietf:params:oauth:jwk-thumbprint" ∷ "did:key" ∷ []

abbrev pub default_id_token_types : List String
default_id_token_types = "subject_signed_id_token" ∷ []

abbrev pub default_id_token_algs : List String
default_id_token_algs = "ES256" ∷ []

-- A parameter that is a list of texts.
abbrev texts_param : MetadataSerde → String → TypedParameter (List String)
texts_param ms key = record {
  key = key;
  try_from = ms.to_texts;
  try_into = λ ts. Result.ok (array (of_items (vec_map string ts)));
}

module _ (s : Serde) where
  abbrev pub issuer : TypedParameter String
  issuer = record { key = "issuer"; try_from = s.to_text; try_into = λ t. Result.ok (string t) }

  abbrev pub authorization_endpoint : TypedParameter String
  authorization_endpoint = record {
    key = "authorization_endpoint";
    try_from = s.to_url;
    try_into = λ t. Result.ok (string t);
  }

module _ (ms : MetadataSerde) where
  abbrev pub response_types_supported : TypedParameter (List ResponseType)
  response_types_supported = record {
    key = "response_types_supported";
    try_from = λ v. map_ok (vec_map ResponseType.from_string) (ms.to_texts v);
    try_into =
        λ ts. Result.ok (array (of_items (vec_map string (vec_map ResponseType.into_string ts))));
  }

  abbrev pub request_object_signing_alg_values_supported : TypedParameter (List String)
  request_object_signing_alg_values_supported =
      texts_param ms "request_object_signing_alg_values_supported"

  abbrev pub authorization_encryption_alg_values_supported : TypedParameter (List String)
  authorization_encryption_alg_values_supported =
      texts_param ms "authorization_encryption_alg_values_supported"

  abbrev pub authorization_encryption_enc_values_supported : TypedParameter (List String)
  authorization_encryption_enc_values_supported =
      texts_param ms "authorization_encryption_enc_values_supported"

  abbrev pub scopes_supported : TypedParameter (List String)
  scopes_supported = texts_param ms "scopes_supported"

  abbrev pub id_token_types_supported : TypedParameter (List String)
  id_token_types_supported = texts_param ms "id_token_types_supported"

  abbrev pub id_token_signing_alg_values_supported : TypedParameter (List String)
  id_token_signing_alg_values_supported = texts_param ms "id_token_signing_alg_values_supported"

-- `VpFormatsSupported::is_claim_format_supported`
unfoldable pub is_claim_format_supported : ClaimFormatMap → ClaimFormatDesignation → Bool
unfolding Dict.contains_key
is_claim_format_supported formats designation = Dict.contains_key designation formats

-- `VpFormatsSupported::supports_security_method`
unfoldable pub supports_security_method : ClaimFormatMap → ClaimFormatDesignation → String → Bool
unfolding Dict.lookup
supports_security_method formats format security_method = elim (Dict.lookup format formats) [
  | some (alg values) ↦ contains values security_method
  | some (alg_values_supported values) ↦ contains values security_method
  | some (proof_type values) ↦ contains values security_method
  | _ ↦ false
]
