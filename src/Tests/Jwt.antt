-- ===== src/Tests/Jwt.antt =====
-- Request objects that are signed with a certificate and with a decentralized identifier.
use openid4vp.Common.{
  ℕ, String, ◌<>◌, List, [], ◌∷◌, none, some, Result, ok, err, Anyhow, ◌≡◌, refl, ap, ◌==◌, nat_eq,
  string_eq, if◌then◌else◌, arith, length,
}
use openid4vp.Json.{Json, string, array, of_items, object, end}
use openid4vp.Object.{UntypedObject, get, into_json}
use openid4vp.Parameters.Prefix
use openid4vp.Parameters.Prefix.{x509_san_dns, decentralized_identifier}
use openid4vp.Parameters.ClientId.{ClientId}
use openid4vp.AuthorizationRequest.Object.{AuthorizationRequestObject}
use openid4vp.Signer.{Signer, Codec, X509, dns_name}
use openid4vp.Metadata.Parameters
use openid4vp.Verification.Metadata.{WalletMetadata, MetadataSerde}
use openid4vp.Verification.X509.{KeyVerifier, validate}
use openid4vp.Verification.X509.Laws.{validate-generate_request_object_jwt}
use openid4vp.Verification.Did.{verify_with_resolver}
use openid4vp.Verification.Did.Laws.{verify_with_resolver-generate_request_object_jwt}
use openid4vp.Verifier.Client.{
  X509Client, DecentralizedIdentifierClient, header, san_dns, new_x509, x509_client, new_did,
  did_client,
}
use openid4vp.Tests.Requests.{serde, metadata_serde, wallet_metadata, request}
use openid4vp.Tests.Codec.{
  codec, codec-IsFaithful, encode, finish, prints_header, check, split-encode,
}

abbrev leaf : List ℕ
leaf = 5 ∷ []

-- A certificate is its DER form.
abbrev x509 : X509 (List ℕ)
x509 = record {
  to_der = λ c. ok c;
  from_der = λ d. ok d;
  subject_alt_names = λ c. ok (dns_name "verifier.example" ∷ []) ∷ [];
  subject_public_key_info = λ c. "key";
  sha256 = λ b. b;
}

abbrev signer : Signer String
signer = record { alg = ok "ES256"; jwk = ok "jwk"; sign = λ payload. ok (7 ∷ []) }

-- A signature is one number.
abbrev keys : KeyVerifier String
keys = record {
  from_spki = λ info alg. ok info;
  verify = λ key payload signature. if length signature == 1 then ok tt else err [];
}

abbrev es256 : MetadataSerde
es256 = record metadata_serde { to_texts = λ v. ok ("ES256" ∷ []) }

abbrev supporting : WalletMetadata
supporting = record wallet_metadata {
  inner = record { map = ("request_object_signing_alg_values_supported", object end) ∷ [] };
}

-- The body that is signed has its client identifier only.
abbrev body : AuthorizationRequestObject
body = record request { inner = record { map = [] } }

abbrev x509_id : ClientId
x509_id = record { id = "verifier.example"; prefix = x509_san_dns }

abbrev chain : Json
chain = array (of_items (string (encode leaf) ∷ []))

abbrev x509_signer : X509Client String (List ℕ)
x509_signer = record { id = x509_id; x5c = leaf ∷ []; signer = signer; variant = san_dns }

abbrev jwt : String
jwt = encode (1 ∷ []) <> "." <> encode (2 ∷ 3 ∷ []) <> "." <> encode (7 ∷ [])

makes_x509 : new_x509 (codec "x5c" chain) serde x509 (leaf ∷ []) signer san_dns ≡ ok x509_signer
unfolding new_x509 Prefix.try_from
makes_x509 = refl

signs_x509 :
    (x509_client (codec "x5c" chain) serde x509 x509_signer).generate_request_object_jwt body
    ≡ ok jwt
unfolding x509_client
signs_x509 = ap finish (prints_header "x5c" chain)

reads_algs :
    get (Parameters.request_object_signing_alg_values_supported es256) supporting.inner
    ≡ some (ok ("ES256" ∷ []))
unfolding get
reads_algs = refl

verifies :
    (payload : String) (signature : List ℕ)
    → signer.sign payload ≡ ok signature
    → keys.verify "key" payload signature ≡ ok tt
verifies payload signature h = ground arith

validate-generate_request_object_jwt_example :
    validate
      (codec "x5c" chain)
      x509
      keys
      es256
      san_dns
      supporting
      (record request { client_id = x509_id })
      jwt
      none
    ≡ ok tt
unfolding x509_client
validate-generate_request_object_jwt_example =
    validate-generate_request_object_jwt (codec "x5c" chain) serde x509 keys es256 leaf [] signer
      san_dns supporting body (record request { client_id = x509_id }) none
      (codec-IsFaithful "x5c" chain) (λ d h. cc) refl verifies refl reads_algs refl makes_x509
      (omega arith) signs_x509 refl

abbrev vm : String
vm = "did:example:1#key"

abbrev did_codec : Codec String
did_codec = codec "kid" (string vm)

abbrev did_id : ClientId
did_id = record { id = "did:example:1"; prefix = decentralized_identifier }

abbrev did_signer : DecentralizedIdentifierClient String
did_signer = record { id = did_id; vm = vm; signer = signer }

abbrev fetch : String → Result Anyhow String
fetch url = ok "jwk"

makes_did : new_did fetch vm signer ≡ ok did_signer
unfolding new_did Prefix.try_from
makes_did = refl

signs_did :
    (did_client (codec "kid" (string vm)) serde did_signer).generate_request_object_jwt body
    ≡ ok jwt
unfolding did_client
signs_did = ap finish (prints_header "kid" (string vm))

verifies_did :
    (jwk : String) (claims : UntypedObject) (h b : String) (sig : List ℕ)
    → signer.jwk ≡ ok jwk
    → did_codec.to_text (header "ES256" "kid" (string vm)) ≡ ok h
    → did_codec.to_text (into_json claims) ≡ ok b
    → signer.sign (encode (did_codec.as_bytes h) <> "." <> encode (did_codec.as_bytes b)) ≡ ok sig
    → (read : Json) × (did_codec.decode_verify
          (encode (did_codec.as_bytes h)
            <> "."
            <> encode (did_codec.as_bytes b)
            <> "."
            <> encode sig)
          jwk
        ≡ ok read)
verifies_did jwk claims h b sig jwk_e h_e b_e sig_e =
    let h_same : h ≡ "header" = cc (prints_header "kid" (string vm)) in
    let jwk_same : jwk ≡ "jwk" = cc in
    let sig_same : sig ≡ 7 ∷ [] = cc in
    (
      string (encode (did_codec.as_bytes b)),
      rw (h_same, jwk_same, sig_same)
          (ap (check "jwk") (split-encode (1 ∷ []) (did_codec.as_bytes b) (encode (7 ∷ [])))),
    )

verify_with_resolver-generate_request_object_jwt_example :
    verify_with_resolver
      (codec "kid" (string vm))
      serde
      es256
      supporting
      (record request { client_id = did_id })
      jwt
      (some ("did:example:1" ∷ []))
      fetch
    ≡ ok tt
unfolding did_client
verify_with_resolver-generate_request_object_jwt_example =
    verify_with_resolver-generate_request_object_jwt (codec "kid" (string vm)) serde es256 vm signer
      supporting body (record request { client_id = did_id }) (some ("did:example:1" ∷ [])) fetch
      fetch (codec-IsFaithful "kid" (string vm)) verifies_did refl reads_algs refl makes_did refl
      (omega arith) refl signs_did refl
