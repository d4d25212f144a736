-- ===== src/Verification/X509.antt =====
-- core/authorization_request/verification/x509_san.rs and verifier.rs: a signed request against
-- the leaf certificate in its header.
pub mod Laws
use openid4vp.Common.{
  ℕ, String, ◌<>◌, Char, code, Bool, not, List, [], ◌∷◌, Option, none, some, Result, ok, err,
  Anyhow, ◌>>=◌, context, option_context, contains, ◌==◌, nat_eq, string_eq, if◌then◌else◌,
}
use mathlib.Core.Option as O
use openid4vp.Common.Dict
use openid4vp.Common.Dict.{Dict}
use openid4vp.Json.{Json, string, array, items}
use openid4vp.Object.{get, parsing_error}
use openid4vp.Parameters.Prefix
use openid4vp.AuthorizationRequest.Object.{AuthorizationRequestObject}
use openid4vp.Signer.{Codec, X509}
use openid4vp.Metadata.Parameters
use openid4vp.Verification.Metadata.{WalletMetadata, MetadataSerde}
use openid4vp.Verifier.Client.{X509Variant, hash, san_dns, to_prefix, all_dns_names, first}

-- The trait `Verifier`: a key that is made of the public key information of a certificate and the
-- `alg` header, and the check of the bytes of a signature of a text.
pub record KeyVerifier (Key : Type 0) : Type 0 where
  pub from_spki : String → String → Result Anyhow Key
  pub verify : Key → String → List ℕ → Result Anyhow (Unit {0})

-- `str::strip_prefix`
unfoldable pub strip_prefix : String → String → Option String
strip_prefix String.[] s = some s
strip_prefix (String.◌∷◌ c p) String.[] = none
strip_prefix (String.◌∷◌ c p) (String.◌∷◌ d s) = if code c == code d then strip_prefix p s else none

-- `str::trim_end_matches`, for a character
unfoldable pub trim_end_matches : ℕ → String → String
trim_end_matches char String.[] = ""
trim_end_matches char (String.◌∷◌ c s) = elim (trim_end_matches char s) [
  | String.[] ↦ if code c == char then "" else String.◌∷◌ c ""
  | String.◌∷◌ d rest ↦ String.◌∷◌ c (String.◌∷◌ d rest)
]

-- A header that must be there and be a text.
unfoldable pub text_header : String → String → Option Json → Result Anyhow String
text_header missing no_text (some (string t)) = ok t
text_header missing no_text (some _) = err (no_text ∷ [])
text_header missing no_text none = err (missing ∷ [])

-- The text of the leaf certificate in the header.
unfoldable pub leaf_text : Option Json → Result Anyhow String
leaf_text none = err ("'x5c' was missing from jwt headers" ∷ [])
leaf_text (some (array chain)) = elim (first (items chain)) [
  | none ↦ err ("'x5c' was an empty array" ∷ [])
  | some (string t) ↦ ok t
  | some _ ↦ err ("'x5c' header was not an array of strings" ∷ [])
]
leaf_text (some _) = err ("'x5c' header was not an array" ∷ [])

unfoldable pub check_alg : List String → String → Result Anyhow (Unit {0})
check_alg supported alg =
    if contains supported alg
    then ok tt
    else err (("request was signed with unsupported algorithm: " <> alg) ∷ [])

module _ {Jwk Certificate : Type 0} (codec : Codec Jwk) (x509 : X509 Certificate) where
  unfoldable pub ensure_client_id_matches_leaf :
      X509Variant → String → Certificate → List ℕ → Result Anyhow (Unit {0})
  unfolding all_dns_names
  ensure_client_id_matches_leaf hash client_id leaf der =
      if not (codec.url_encode (x509.sha256 der) == client_id)
      then err ("client_id does not match the hash of the leaf certificate in 'x5c'" ∷ [])
      else ok tt
  ensure_client_id_matches_leaf san_dns client_id leaf der =
      if not (contains (all_dns_names (x509.subject_alt_names leaf)) client_id)
      then err ("client_id does not match any Subject Alternative Name" ∷ [])
      else ok tt

  module _ {Key : Type 0} (keys : KeyVerifier Key) (ms : MetadataSerde) where
    -- The trusted roots are not looked at.
    unfoldable pub validate :
        X509Variant
        → WalletMetadata
        → AuthorizationRequestObject
        → String
        → Option (List Certificate)
        → Result Anyhow (Unit {0})
    unfolding check_alg strip_prefix trim_end_matches text_header leaf_text
        ensure_client_id_matches_leaf get parsing_error Dict.lookup Dict.erase to_prefix
        Prefix.into_string
    validate variant wallet_metadata request_object request_jwt trusted_roots = do
      let client_id = request_object.client_id.id
      let client_id_source =
          O.get_or (strip_prefix (Prefix.into_string (to_prefix variant) <> ":") client_id)
            client_id
      (headers_b64, body_b64, sig_b64) ← codec.split_jws request_jwt
      bytes ← context "jwt headers were not valid base64url" (codec.url_decode headers_b64)
      headers ← context "jwt headers were not valid json" (codec.headers_from_slice bytes)
      alg ←
          text_header "'alg' was missing from jwt headers" "'alg' header was not a string"
            (Dict.lookup "alg" headers)
      let algs = Parameters.request_object_signing_alg_values_supported ms
      supported ← parsing_error algs (get algs wallet_metadata.inner)
      _ ← check_alg supported alg
      b64_x509 ← leaf_text (Dict.lookup "x5c" (Dict.erase "alg" headers))
      der ←
          context "leaf certificate in 'x5c' was not valid base64"
            (codec.standard_decode_no_pad (trim_end_matches b'=' b64_x509))
      leaf ← context "leaf certificate in 'x5c' was not valid DER" (x509.from_der der)
      _ ← ensure_client_id_matches_leaf variant client_id_source leaf der
      key ← context "unable to parse SPKI" (keys.from_spki (x509.subject_public_key_info leaf) alg)
      signature ←
          context "could not decode base64url encoded jwt signature" (codec.url_decode sig_b64)
      context "request signature could not be verified"
          (keys.verify key (headers_b64 <> "." <> body_b64) signature)
