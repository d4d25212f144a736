-- ===== src/Verification/Metadata.antt =====
-- core/metadata: the fields of `WalletMetadata` that verification reads, and their parameters.
use mathlib.Core.Option as O
use openid4vp.Common.{
  String, ◌<>◌, Bool, false, List, [], ◌∷◌, is_empty, Result, ok, err, Anyhow, ◌>>=◌, result_or,
  string_eq, if◌then◌else◌,
}
use openid4vp.Common.Dict
use openid4vp.Json.{Json, string, array, items, of_items}
use openid4vp.Object.{UntypedObject, TypedParameter}
use openid4vp.Parameters.Prefix
use openid4vp.Parameters.Prefix.{
  ClientIdPrefix, prefix_eq, decentralized_identifier, openid_federation, pre_registered,
  redirect_uri, verifier_attestation, origin, x509_san_dns, x509_hash,
}
use openid4vp.Parameters.ResponseMode.{mode_eq}
use openid4vp.Parameters.ResponseType.{ResponseType, type_eq}
use openid4vp.CredentialFormat.Designation
use openid4vp.CredentialFormat.Designation.{ClaimFormatDesignation, designation_eq}
use openid4vp.CredentialFormat.Payload.{ClaimFormatPayload, ClaimFormatMap, contains_payload}
use openid4vp.AuthorizationRequest.Typed.{Serde}

-- The fields of the tuple in their order; the types that wrap a list or a map are what they wrap.
pub record WalletMetadata : Type 0 where
  pub inner : UntypedObject
  pub authorization_endpoint : String
  pub vp_formats_supported : ClaimFormatMap
  pub response_types_supported : List ResponseType
  pub client_id_prefixes_supported : List ClientIdPrefix
  pub request_object_signing_alg_values_supported : List String
  pub scopes_supported : List String
  pub subject_syntax_types_supported : List String
  pub id_token_types_supported : List String
  pub id_token_signing_alg_values_supported : List String

-- `serde_json::from_value` at `ClaimFormatMap` and at a list of texts, and the serialisations.
pub record MetadataSerde : Type 0 where
  pub to_formats : Json → Result Anyhow ClaimFormatMap
  pub from_formats : ClaimFormatMap → Result Anyhow Json
  pub to_texts : Json → Result Anyhow (List String)
  pub payload_to_string : ClaimFormatPayload → Result Anyhow String

unfoldable pub parse_prefixes :
    (Json → Result Anyhow String) → List Json → Result Anyhow (List ClientIdPrefix)
parse_prefixes to_text [] = ok []
parse_prefixes to_text (x ∷ xs) = do
  text ← to_text x
  prefix ← Prefix.try_from text
  prefixes ← parse_prefixes to_text xs
  ok (prefix ∷ prefixes)

-- `TryFrom<Json> for ClientIdPrefixesSupported`
unfoldable pub prefixes_from :
    (Json → Result Anyhow String) → Json → Result Anyhow (List ClientIdPrefix)
unfolding parse_prefixes
prefixes_from to_text (array xs) = parse_prefixes to_text (items xs)
prefixes_from to_text _ = err ("expected JSON array" ∷ [])

abbrev pub prefixes_to : List ClientIdPrefix → List Json
prefixes_to [] = []
prefixes_to (p ∷ ps) = string (Prefix.into_string p) ∷ prefixes_to ps

abbrev texts_to : List String → List Json
texts_to [] = []
texts_to (t ∷ ts) = string t ∷ texts_to ts

module _ (s : Serde) (ms : MetadataSerde) where
  abbrev pub client_id_prefixes_supported : TypedParameter (List ClientIdPrefix)
  client_id_prefixes_supported = record {
    key = "client_id_prefixes_supported";
    try_from = prefixes_from s.to_text;
    try_into = λ ps. ok (array (of_items (prefixes_to ps)));
  }

  abbrev pub subject_syntax_types_supported : TypedParameter (List String)
  subject_syntax_types_supported = record {
    key = "subject_syntax_types_supported";
    try_from = ms.to_texts;
    try_into = λ ts. ok (array (of_items (texts_to ts)));
  }

  abbrev pub vp_formats_supported : TypedParameter ClaimFormatMap
  vp_formats_supported = record {
    key = "vp_formats_supported";
    try_from = ms.to_formats;
    try_into = ms.from_formats;
  }

-- `VpFormatsSupported::contains_claim_format_with_payload`
unfoldable pub contains_claim_format_with_payload :
    ClaimFormatMap → ClaimFormatDesignation → ClaimFormatPayload → Bool
unfolding Dict.lookup
contains_claim_format_with_payload formats designation payload =
    O.get_or (O.map (λ v. contains_payload v payload) (Dict.lookup designation formats)) false

-- `Vec<String>::join(", ")` of the descriptions of the entries.
unfoldable pub describe_formats : MetadataSerde → ClaimFormatMap → String
describe_formats ms [] = ""
describe_formats ms ((format, payload) ∷ rest) =
    "'"
    <> Designation.name format
    <> "' with alg values '"
    <> result_or "" (ms.payload_to_string payload)
    <> "'"
    <> (if is_empty rest then "" else ", " <> describe_formats ms rest)
