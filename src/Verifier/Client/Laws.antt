-- ===== src/Verifier/Client/Laws.antt =====
-- The prefix that a client gives and the one in its identifier.
use openid4vp.Json.{Json}
use openid4vp.AuthorizationRequest.Object.{AuthorizationRequestObject, into_object}
use openid4vp.Object.{into_json}
use openid4vp.Common.{
  ℕ, Result-cases, Bool-cases, ok_or, context, ◌==◌, inl, inr, some, [], ◌∷◌, String, ◌<>◌, List,
  ok, Result, Anyhow, Eq, ◌≡◌, >>=-eq-ok, arith,
}
use openid4vp.Parameters.Prefix
use openid4vp.Parameters.Prefix.{ClientIdPrefix}
use openid4vp.Parameters.ClientId
use openid4vp.Parameters.ClientId.{ClientId}
use openid4vp.Parameters.ClientId.Laws.{new-get_full_id}
use openid4vp.Signer.{Signer, Codec, X509}
use openid4vp.AuthorizationRequest.Typed.{Serde}
use openid4vp.Verifier.Client.{
  X509Variant, to_prefix, DecentralizedIdentifierClient, X509Client, sign_request, leaf_id,
  rsplit_once, new_did, new_x509, client_id,
}

-- A text that starts with the name of a prefix and a colon is read as an identifier of that prefix.
pub new_prefixed :
    (p : ClientIdPrefix) (id : String) {c : ClientId}
    → ClientId.new (Prefix.into_string p <> ":" <> id) ≡ ok c
    → c ≡ record { id = id; prefix = p }
unfolding ClientId.get_full_id
new_prefixed p id h = cc (new-get_full_id (record { id = id; prefix = p }))

-- What a signed request is made of.
pub sign_request_parts :
    {Jwk : Type 0} (codec : Codec Jwk) (signer : Signer Jwk) (s : Serde) (header : Json)
    (body : AuthorizationRequestObject) {jwt : String}
    → sign_request codec signer s header body ≡ ok jwt
    → (h b : String) × (sig : List ℕ) × (codec.to_text header ≡ ok h)
      × (codec.to_text (into_json (into_object s body)) ≡ ok b)
      × (signer.sign
            (codec.url_encode (codec.as_bytes h) <> "." <> codec.url_encode (codec.as_bytes b))
          ≡ ok sig)
      × (jwt
          ≡ codec.url_encode (codec.as_bytes h)
            <> "."
            <> codec.url_encode (codec.as_bytes b)
            <> "."
            <> codec.url_encode sig)
unfolding sign_request
sign_request_parts codec signer s header body p =
    let (h, h_e, p₁) = >>=-eq-ok (codec.to_text header) _ p in
    let (b, b_e, p₂) = >>=-eq-ok (codec.to_text (into_json (into_object s body))) _ p₁ in
    let payload =
      codec.url_encode (codec.as_bytes h) <> "." <> codec.url_encode (codec.as_bytes b) in
    elim (Result-cases (signer.sign payload)) [
      | inl (sig, sig_e) ↦ (h, b, sig, h_e, b_e, sig_e, ground arith)
      | inr (e, e_e) ↦ absurd (ground arith)
    ]

-- What a client is made of that `DecentralizedIdentifierClient::new` makes.
pub new_did_parts :
    {Jwk : Type 0} ⦃jwk_eq : Eq Jwk⦄ (fetch : String → Result Anyhow Jwk) (vm : String)
    (signer : Signer Jwk) {c : DecentralizedIdentifierClient Jwk}
    → new_did fetch vm signer ≡ ok c
    → (did fragment : String) × (jwk : Jwk) × (rsplit_once b'#' vm ≡ some (did, fragment))
      × (fetch vm ≡ ok jwk)
      × (signer.jwk ≡ ok jwk)
      × (c ≡ record {
        id = record { id = did; prefix = Prefix.decentralized_identifier };
        vm = vm;
        signer = signer;
      })
unfolding new_did Prefix.into_string
new_did_parts {Jwk} ⦃jwk_eq⦄ fetch vm signer {c} h =
    let (parts, parts_e, h₁) =
      >>=-eq-ok
        (ok_or (("expected a DID verification method, received '" <> vm <> "'") ∷ [])
          (rsplit_once b'#' vm))
        _ h in
    let (jwk, jwk_e, h₂) =
      >>=-eq-ok (context "unable to resolve key from verification method" (fetch vm)) _ h₁ in
    let (own, own_e, h₃) = >>=-eq-ok (context "signer did not have a JWK" signer.jwk) _ h₂ in
    elim (Bool-cases (jwk == own)) [
      | inl same ↦
          let e = (jwk_eq.beq_iff jwk own).0 same in
          let (id, id_e, h₄) =
            >>=-eq-ok (ClientId.new ("decentralized_identifier" <> ":" <> parts.0)) _
              (rw same at h₃) in
          (
            parts.0,
            parts.1,
            jwk,
            ground arith,
            ground arith,
            ground arith,
            cc (new_prefixed Prefix.decentralized_identifier parts.0 id_e),
          )
      | inr differ ↦ absurd (ground arith)
    ]

-- What a client is made of that `X509Client::new` makes.
pub new_x509_parts :
    {Jwk Certificate : Type 0} (codec : Codec Jwk) (s : Serde) (x509 : X509 Certificate)
    (leaf : Certificate) (rest : List Certificate) (signer : Signer Jwk) (variant : X509Variant)
    {c : X509Client Jwk Certificate}
    → new_x509 codec s x509 (leaf ∷ rest) signer variant ≡ ok c
    → (id : String) × (leaf_id codec s x509 variant leaf ≡ ok id)
      × (c ≡ record {
        id = record { id = id; prefix = to_prefix variant };
        x5c = leaf ∷ rest;
        signer = signer;
        variant = variant;
      })
unfolding new_x509
new_x509_parts codec s x509 leaf rest signer variant {c} h =
    let (i, i_e, h₁) = >>=-eq-ok (client_id codec s x509 (leaf ∷ rest) variant) _ h in
    let (id, id_e, h₂) = >>=-eq-ok (leaf_id codec s x509 variant leaf) _ i_e in
    (id, id_e, cc (new_prefixed (to_prefix variant) id h₂))
