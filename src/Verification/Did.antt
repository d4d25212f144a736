-- ===== src/Verification/Did.antt =====
-- core/authorization_request/verification/did.rs: a signed request against the DID of its client.
pub mod Laws
use openid4vp.Common.{
  ℕ, String, ◌<>◌, Char, code, Bool, not, List, [], ◌∷◌, Option, none, some, Result, ok, err,
  Anyhow, ◌>>=◌, map_err, ok_or, contains, ◌==◌, nat_eq, string_eq, if◌then◌else◌,
}
use mathlib.Core.Option as O
use openid4vp.Common.Dict
use openid4vp.Common.Dict.{Dict}
use openid4vp.Json.{Json, string}
use openid4vp.Error.{Error, internal, protocol_access_denied, add_source}
use openid4vp.Object.{get, parsing_error}
use openid4vp.Parameters.ClientId
use openid4vp.AuthorizationRequest.Typed.{Serde}
use openid4vp.AuthorizationRequest.Object.{AuthorizationRequestObject, lift, read_state}
use openid4vp.Signer.{Codec}
use openid4vp.Metadata.Parameters
use openid4vp.Verification.Metadata.{WalletMetadata, MetadataSerde}

-- `str::split_once`, for a separator that is one character: what stands before and after the
-- first one.
unfoldable pub split_once : ℕ → String → Option (String × String)
split_once separator String.[] = none
split_once separator (String.◌∷◌ c s) =
    let later =
      O.map (λ (parts : String × String). (String.◌∷◌ c parts.0, parts.1))
        (split_once separator s) in
    if code c == separator then some ("", s) else later

-- `map_err(|e| Error::protocol_access_denied(…).add_source(e))`
abbrev pub denied {ℓ} : {A : Type ℓ} → String → Option String → Result Anyhow A → Result Error A
denied message state = map_err (λ e. add_source e (protocol_access_denied message state))

-- The header `alg`.
unfoldable pub read_alg : Option String → Option Json → Result Error String
read_alg state (some (string alg)) = ok alg
read_alg state (some _) = err (protocol_access_denied "'alg' header of jwt is not a string" state)
read_alg state none = err (protocol_access_denied "'alg' was missing from jwt headers" state)

-- The header `kid`.
unfoldable pub read_kid : Option String → String → Option Json → Result Error String
read_kid state alg (some (string kid)) = ok kid
read_kid state alg (some _) =
    err (protocol_access_denied ("'kid' header of jwt is not a string: " <> alg) state)
read_kid state alg none = err (internal ("'kid' was missing from jwt headers" ∷ []))

unfoldable pub check_supported : Option String → List String → String → Result Error (Unit {0})
check_supported state supported alg =
    if contains supported alg
    then ok tt
    else err
        (protocol_access_denied ("request was signed with unsupported algorithm: " <> alg) state)

unfoldable pub check_did : Option String → ClientId.ClientId → String → Result Error (Unit {0})
check_did state client_id did =
    if client_id.id == did
    then ok tt
    else err (
        protocol_access_denied
          ("DIDs from 'kid' ("
            <> did
            <> ") and 'client_id' ("
            <> ClientId.get_full_id client_id
            <> ") do not match")
          state)

unfoldable pub check_trusted :
    Option String → Option (List String) → String → Result Error (Unit {0})
check_trusted state none did = ok tt
check_trusted state (some dids) did =
    if contains dids did
    then ok tt
    else err (protocol_access_denied "'client_id' ({did}) is not in the list of trusted dids" state)

module _ {Jwk : Type 0} (codec : Codec Jwk) (s : Serde) (ms : MetadataSerde) where
  -- `fetch_public_jwk` is the method of the resolver.
  unfoldable pub verify_with_resolver :
      WalletMetadata
      → AuthorizationRequestObject
      → String
      → Option (List String)
      → (String → Result Anyhow Jwk)
      → Result Error (Unit {0})
  unfolding read_state read_alg read_kid check_supported check_did check_trusted split_once get
      parsing_error Dict.lookup Dict.erase
  verify_with_resolver wallet_metadata request_object request_jwt trusted_dids fetch_public_jwk = do
    let state = read_state s request_object.inner
    (headers_b64, body_b64, sig_b64) ← lift (codec.split_jws request_jwt)
    bytes ← denied "jwt headers were not valid base64url" state (codec.url_decode headers_b64)
    headers ← denied "jwt headers were not valid json" state (codec.headers_from_slice bytes)
    alg ← read_alg state (Dict.lookup "alg" headers)
    let algs = Parameters.request_object_signing_alg_values_supported ms
    supported ← lift (parsing_error algs (get algs wallet_metadata.inner))
    _ ← check_supported state supported alg
    kid ← read_kid state alg (Dict.lookup "kid" (Dict.erase "alg" headers))
    (did, fragment) ←
        ok_or
          (protocol_access_denied
            ("expected a DID verification method in 'kid' header, received '" <> kid <> "'") state)
          (split_once b'#' kid)
    _ ← check_did state request_object.client_id did
    _ ← check_trusted state trusted_dids did
    jwk ←
        denied "unable to resolve verification method from 'kid' header" state
          (fetch_public_jwk kid)
    _ ← denied "request signature could not be verified" state (codec.decode_verify request_jwt jwk)
    ok tt
