-- ===== src/Verifier/Client.antt =====
-- verifier/client.rs: how a verifier identifies itself, and signs its requests.
pub mod Laws
use openid4vp.Common.{
  ℕ, String, ◌<>◌, Char, code, List, [], ◌∷◌, ◌++◌, Option, none, some, Result, ok, err, Anyhow,
  ◌>>=◌, map_ok, context, ok_or, Eq, ◌==◌, nat_eq, string_eq, if◌then◌else◌, not,
}
use openid4vp.Json.{Json, string, array, object, of_items, of_entries}
use openid4vp.Object.{UntypedObject, into_json}
use openid4vp.Parameters.Prefix
use openid4vp.Parameters.Prefix.{
  ClientIdPrefix, decentralized_identifier, redirect_uri, x509_san_dns, x509_hash,
}
use openid4vp.Parameters.ClientId
use openid4vp.Parameters.ClientId.{ClientId}
use openid4vp.AuthorizationRequest.Typed.{Serde}
use openid4vp.AuthorizationRequest.Object.{AuthorizationRequestObject, into_object}
use openid4vp.Utils.{generate_jwt}
use openid4vp.Signer.{Signer, Codec, X509, GeneralName, dns_name, other_name}

-- The trait `Client`.
pub record Client : Type 0 where
  pub id : ClientId
  pub prefix : ClientIdPrefix
  pub generate_request_object_jwt : AuthorizationRequestObject → Result Anyhow String

pub data X509Variant : Type 0 where
  hash san_dns : X509Variant

unfoldable pub to_prefix : X509Variant → ClientIdPrefix
to_prefix hash = x509_hash
to_prefix san_dns = x509_san_dns

-- `str::rsplit_once`, for a separator that is one character: what stands before and after the
-- last one.
unfoldable pub rsplit_once : ℕ → String → Option (String × String)
rsplit_once separator String.[] = none
rsplit_once separator (String.◌∷◌ c s) = elim (rsplit_once separator s) [
  | some (before, after) ↦ some (String.◌∷◌ c before, after)
  | none ↦ if code c == separator then some ("", s) else none
]

-- The DNS names among the names of an extension, in their order.
unfoldable pub dns_names : List GeneralName → List String
dns_names [] = []
dns_names (dns_name dns ∷ names) = dns ∷ dns_names names
dns_names (other_name ∷ names) = dns_names names

-- The DNS names of all the extensions that can be parsed.
unfoldable pub all_dns_names : List (Result Anyhow (List GeneralName)) → List String
unfolding dns_names
all_dns_names [] = []
all_dns_names (ok names ∷ extensions) = dns_names names ++ all_dns_names extensions
all_dns_names (err _ ∷ extensions) = all_dns_names extensions

-- `slice::first`, and `Iterator::next` of a new iterator
abbrev pub first {ℓ} : {A : Type ℓ} → List A → Option A
first [] = none
first (x ∷ xs) = some x

-- What the JSON object of the headers is printed as, and the signed text.
unfoldable pub sign_request :
    {Jwk : Type 0}
    → Codec Jwk
    → Signer Jwk
    → Serde
    → Json
    → AuthorizationRequestObject
    → Result Anyhow String
unfolding generate_jwt into_object into_json
sign_request codec signer s header body =
    generate_jwt (λ t. codec.url_encode (codec.as_bytes t))
      (λ payload. map_ok codec.url_encode (signer.sign payload)) (codec.to_text header)
      (codec.to_text (into_json (into_object s body)))

pub record DecentralizedIdentifierClient (Jwk : Type 0) : Type 0 where
  pub id : ClientId
  pub vm : String
  pub signer : Signer Jwk

pub record X509Client (Jwk Certificate : Type 0) : Type 0 where
  pub id : ClientId
  pub x5c : List Certificate
  pub signer : Signer Jwk
  pub variant : X509Variant

pub record RedirectUriClient : Type 0 where
  pub id : ClientId

-- The header of a request object: its algorithm, a field that names the key, and its type.
abbrev pub header : String → String → Json → Json
header alg name key =
    object
      (of_entries (("alg", string alg) ∷ (name, key) ∷ ("typ", string "oauth-authz-req+jwt") ∷ []))

module _ {Jwk : Type 0} ⦃jwk_eq : Eq Jwk⦄ where
  -- `DecentralizedIdentifierClient::new`; `fetch_public_jwk` is the method of the resolver.
  unfoldable pub new_did :
      (String → Result Anyhow Jwk)
      → String
      → Signer Jwk
      → Result Anyhow (DecentralizedIdentifierClient Jwk)
  unfolding rsplit_once ClientId.new
  new_did fetch_public_jwk vm signer = do
    (id, fragment) ←
        ok_or (("expected a DID verification method, received '" <> vm <> "'") ∷ [])
          (rsplit_once b'#' vm)
    jwk ← context "unable to resolve key from verification method" (fetch_public_jwk vm)
    own ← context "signer did not have a JWK" signer.jwk
    if not (jwk == own)
        then err (
            "verification method resolved from DID document did not match public key of signer"
            ∷ [])
        else (ClientId.new ("decentralized_identifier" <> ":" <> id) >>= λ client_id.
            ok (record { id = client_id; vm = vm; signer = signer }))

module _ {Jwk : Type 0} (codec : Codec Jwk) (s : Serde) where
  -- `Client for DecentralizedIdentifierClient`
  unfoldable pub did_client : DecentralizedIdentifierClient Jwk → Client
  unfolding sign_request
  did_client c = record {
    id = c.id;
    prefix = decentralized_identifier;
    generate_request_object_jwt = λ body.
        context "failed to retrieve signing algorithm" c.signer.alg >>= λ alg.
        sign_request codec c.signer s (header alg "kid" (string c.vm)) body;
  }

  module _ {Certificate : Type 0} (x509 : X509 Certificate) where
    -- The text that a certificate is identified by.
    unfoldable pub leaf_id : X509Variant → Certificate → Result Anyhow String
    unfolding all_dns_names
    leaf_id hash leaf = map_ok (λ der. codec.url_encode (x509.sha256 der)) (x509.to_der leaf)
    leaf_id san_dns leaf =
        ok_or ("x509 certificate does not contain Subject Alternative Name" ∷ [])
          (first (all_dns_names (x509.subject_alt_names leaf)))

    -- `X509Client::client_id`
    unfoldable pub client_id : List Certificate → X509Variant → Result Anyhow ClientId
    unfolding leaf_id to_prefix ClientId.new Prefix.into_string
    client_id x5c variant = do
      leaf ← ok_or ("x509 certificate chain is empty" ∷ []) (first x5c)
      id ← leaf_id variant leaf
      ClientId.new (Prefix.into_string (to_prefix variant) <> ":" <> id)

    -- `X509Client::new`
    unfoldable pub new_x509 :
        List Certificate → Signer Jwk → X509Variant → Result Anyhow (X509Client Jwk Certificate)
    unfolding client_id
    new_x509 x5c signer variant = do
      id ← client_id x5c variant
      ok (record { id = id; x5c = x5c; signer = signer; variant = variant })

    -- The certificates of a chain in base64.
    unfoldable pub encode_chain : List Certificate → Result Anyhow (List Json)
    encode_chain [] = ok []
    encode_chain (c ∷ chain) = do
      der ← x509.to_der c
      rest ← encode_chain chain
      ok (string (codec.standard_encode der) ∷ rest)

    -- `Client for X509Client`
    unfoldable pub x509_client : X509Client Jwk Certificate → Client
    unfolding to_prefix encode_chain sign_request
    x509_client c = record {
      id = c.id;
      prefix = to_prefix c.variant;
      generate_request_object_jwt = λ body.
          context "failed to retrieve signing algorithm" c.signer.alg >>= λ alg.
          encode_chain c.x5c >>= λ chain.
          sign_request codec c.signer s (header alg "x5c" (array (of_items chain))) body;
    }

-- `RedirectUriClient::new`
unfoldable pub new_redirect_uri : String → Result Anyhow RedirectUriClient
unfolding ClientId.new
new_redirect_uri id = do
  client_id ← ClientId.new ("redirect_uri" <> ":" <> id)
  ok (record { id = client_id })

-- `Client for RedirectUriClient`
unfoldable pub redirect_uri_client : RedirectUriClient → Client
redirect_uri_client c = record {
  id = c.id;
  prefix = redirect_uri;
  generate_request_object_jwt = λ body.
      err ("generation of signed jwt is not supported in 'redirect_uri' client identifier" ∷ []);
}
