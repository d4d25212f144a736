-- ===== src/Verification/X509/Laws.antt =====
-- A request that an X.509 client signs, at the wallet.
use openid4vp.Common.{
  ℕ, String, ◌<>◌, true, false, List, [], ◌∷◌, Option, none, some, ok, ◌>>=◌, contains, ◌==◌, ◌≡◌,
  refl, ◌∙◌, >>=-eq-ok, nat_eq, string_eq, arith, beq_refl, ok_or,
}
use text.Mathlib.TextLemmas.{cons-append}
use openid4vp.Common.Dict
use openid4vp.Common.Dict.{Dict}
use openid4vp.Json.{Json, string, array, of_items}
use openid4vp.Object.{get}
use openid4vp.Parameters.Prefix
use openid4vp.Parameters.ClientId.{ClientId}
use openid4vp.Parameters.ClientId.Laws.{Lacks}
use openid4vp.AuthorizationRequest.Typed.{Serde}
use openid4vp.AuthorizationRequest.Object.{AuthorizationRequestObject}
use openid4vp.AuthorizationRequest.Object.Matching.{parsing_error_iff}
use openid4vp.Signer.{Signer, Codec, X509}
use openid4vp.Metadata.Parameters
use openid4vp.Verification.Metadata.{WalletMetadata, MetadataSerde}
use openid4vp.Verifier.Client.{
  X509Variant, X509Client, hash, san_dns, to_prefix, all_dns_names, first, header, leaf_id,
  new_x509, encode_chain, x509_client, sign_request,
}
use openid4vp.Verifier.Client.Laws.{sign_request_parts, new_x509_parts}
use openid4vp.Verification.X509.{
  KeyVerifier, strip_prefix, trim_end_matches, check_alg, ensure_client_id_matches_leaf, validate,
}

-- What the encodings give back: bytes, the fields of a header that a client writes, the pieces of
-- a JWS in base64url.
pub record IsFaithful {Jwk : Type 0} (codec : Codec Jwk) : Type 0 where
  pub url : (bytes : List ℕ) → codec.url_decode (codec.url_encode bytes) ≡ ok bytes
  pub standard :
      (bytes : List ℕ)
      → codec.standard_decode_no_pad (trim_end_matches b'=' (codec.standard_encode bytes))
        ≡ ok bytes
  pub headers :
      (alg name : String) (key : Json) (t : String)
      → (name == "alg") ≡ false
      → (name == "typ") ≡ false
      → codec.to_text (header alg name key) ≡ ok t
      → (d : Dict String Json) × (codec.headers_from_slice (codec.as_bytes t) ≡ ok d)
        × (Dict.lookup "alg" d ≡ some (string alg))
        × (Dict.lookup name d ≡ some key)
  pub pieces :
      (a b c : List ℕ)
      → codec.split_jws
          (codec.url_encode a <> "." <> codec.url_encode b <> "." <> codec.url_encode c)
        ≡ ok (codec.url_encode a, codec.url_encode b, codec.url_encode c)

beq_of_eq : (s t : String) → s ≡ t → (s == t) ≡ true
beq_of_eq s t e = rw (← e) (beq_refl s)

check_alg_of_contains :
    (algs : List String) (alg : String) → contains algs alg ≡ true → check_alg algs alg ≡ ok tt
unfolding check_alg
check_alg_of_contains algs alg h = rw h refl

-- A prefix that ends in a colon is not stripped from a text without one.
strip_prefix-colon : (p s : String) → Lacks b':' s → strip_prefix (p <> ":") s ≡ none
unfolding strip_prefix
strip_prefix-colon String.[] String.[] h = refl
strip_prefix-colon String.[] (String.◌∷◌ d s) h = ground arith
strip_prefix-colon (String.◌∷◌ c p) String.[] h = rw cons-append refl
strip_prefix-colon (String.◌∷◌ c p) (String.◌∷◌ d s) h =
    rw cons-append (ground (arith, strip_prefix-colon p s))

contains-first :
    (xs : List String) (message : String) {id : String}
    → ok_or (message ∷ []) (first xs) ≡ ok id
    → contains xs id ≡ true
contains-first [] message h = absurd (ground arith)
contains-first (x ∷ xs) message {id} h =
    let same : x ≡ id = ground arith in rw (beq_of_eq x id same) refl

module _ {Jwk Certificate : Type 0} (codec : Codec Jwk) (s : Serde) (x509 : X509 Certificate) where
  -- The identifier that is derived from a certificate matches it.
  pub ensure_client_id_matches_leaf-leaf_id :
      (variant : X509Variant) (leaf : Certificate) (id : String) (der : List ℕ)
      → leaf_id codec s x509 variant leaf ≡ ok id
      → x509.to_der leaf ≡ ok der
      → ensure_client_id_matches_leaf codec x509 variant id leaf der ≡ ok tt
  unfolding leaf_id ensure_client_id_matches_leaf
  ensure_client_id_matches_leaf-leaf_id hash leaf id der h d =
      let same : codec.url_encode (x509.sha256 der) ≡ id = ground arith in
      rw (beq_of_eq (codec.url_encode (x509.sha256 der)) id same) refl
  ensure_client_id_matches_leaf-leaf_id san_dns leaf id der h d =
      rw (contains-first (all_dns_names (x509.subject_alt_names leaf)) _ h) refl

  encode_chain-cons :
      (leaf : Certificate) (rest : List Certificate) {chain : List Json}
      → encode_chain codec s x509 (leaf ∷ rest) ≡ ok chain
      → (der : List ℕ) × (others : List Json) × (x509.to_der leaf ≡ ok der)
        × (chain ≡ string (codec.standard_encode der) ∷ others)
  unfolding encode_chain
  encode_chain-cons leaf rest h =
      let (der, der_e, h₁) = >>=-eq-ok (x509.to_der leaf) _ h in
      let (others, others_e, h₂) = >>=-eq-ok (encode_chain codec s x509 rest) _ h₁ in
      (der, others, der_e, cc)

  -- What a JWT is made of that an X.509 client signs.
  signed_parts :
      (id : ClientId) (leaf : Certificate) (rest : List Certificate) (signer : Signer Jwk)
      (variant : X509Variant) (alg : String) (body : AuthorizationRequestObject) {jwt : String}
      → signer.alg ≡ ok alg
      → (x509_client codec s x509 (record {
        id = id;
        x5c = leaf ∷ rest;
        signer = signer;
        variant = variant;
      })).generate_request_object_jwt
          body
        ≡ ok jwt
      → (der : List ℕ) × (chain : List Json) × (h b : String) × (sig : List ℕ) × (x509.to_der leaf
          ≡ ok der)
        × (codec.to_text
              (header alg "x5c" (array (of_items (string (codec.standard_encode der) ∷ chain))))
            ≡ ok h)
        × (signer.sign
              (codec.url_encode (codec.as_bytes h) <> "." <> codec.url_encode (codec.as_bytes b))
            ≡ ok sig)
        × (jwt
            ≡ codec.url_encode (codec.as_bytes h)
              <> "."
              <> codec.url_encode (codec.as_bytes b)
              <> "."
              <> codec.url_encode sig)
  unfolding x509_client
  signed_parts id leaf rest signer variant alg body {jwt} alg_e p =
      let p₁ : (encode_chain codec s x509 (leaf ∷ rest) >>= λ chain.
      sign_request codec signer s (header alg "x5c" (array (of_items chain))) body)
          ≡ ok jwt =
        rw alg_e at p in
      let (chain, chain_e, p₂) = >>=-eq-ok (encode_chain codec s x509 (leaf ∷ rest)) _ p₁ in
      let (der, others, der_e, same) = encode_chain-cons leaf rest chain_e in
      let (h, b, sig, h_e, b_e, sig_e, jwt_e) =
        sign_request_parts codec signer s
          (header alg "x5c" (array (of_items (string (codec.standard_encode der) ∷ others)))) body
          (rw same at p₂) in
      (der, others, h, b, sig, der_e, h_e, sig_e, jwt_e)

  module _ {Key : Type 0} (keys : KeyVerifier Key) (ms : MetadataSerde) where
    -- A JWT whose parts are all read is accepted.
    validate_parts :
        (variant : X509Variant) (wallet_metadata : WalletMetadata)
        (request : AuthorizationRequestObject) (roots : Option (List Certificate))
        (leaf : Certificate) (h b jwt alg text : String) (chain : List Json)
        (sig bytes der : List ℕ) (headers : Dict String Json) (algs : List String) (key : Key)
        → codec.split_jws jwt ≡ ok (h, b, codec.url_encode sig)
        → codec.url_decode h ≡ ok bytes
        → codec.headers_from_slice bytes ≡ ok headers
        → Dict.lookup "alg" headers ≡ some (string alg)
        → Dict.lookup "x5c" headers ≡ some (array (of_items (string text ∷ chain)))
        → get (Parameters.request_object_signing_alg_values_supported ms) wallet_metadata.inner
          ≡ some (ok algs)
        → contains algs alg ≡ true
        → codec.standard_decode_no_pad (trim_end_matches b'=' text) ≡ ok der
        → x509.from_der der ≡ ok leaf
        → Lacks b':' request.client_id.id
        → ensure_client_id_matches_leaf codec x509 variant request.client_id.id leaf der ≡ ok tt
        → keys.from_spki (x509.subject_public_key_info leaf) alg ≡ ok key
        → codec.url_decode (codec.url_encode sig) ≡ ok sig
        → keys.verify key (h <> "." <> b) sig ≡ ok tt
        → validate codec x509 keys ms variant wallet_metadata request jwt roots ≡ ok tt
    unfolding validate
    validate_parts variant wallet_metadata request roots leaf h b jwt alg text chain sig bytes der
          headers algs key split url json alg_e x5c_e algs_e supported standard parsed lacks matches
          spki sig_e verified =
        let p = Parameters.request_object_signing_alg_values_supported ms in
        let kept : Dict.lookup "x5c" (Dict.erase "alg" headers)
            ≡ some (array (of_items (string text ∷ chain))) =
          Dict.lookup-erase "x5c" "alg" headers ∙ x5c_e in
        rw
          (
            validate,
            split,
            url,
            json,
            alg_e,
            (parsing_error_iff p (get p wallet_metadata.inner)).1 algs_e,
            check_alg_of_contains algs alg supported,
            kept,
            standard,
            parsed,
            strip_prefix-colon (Prefix.into_string (to_prefix variant)) request.client_id.id lacks,
            matches,
            spki,
            sig_e,
            verified,
          )
          refl

    -- A wallet that supports the algorithm of the signer accepts every request object that an
    -- X.509 client signs, for a request with the identifier of that client, whether the client is
    -- identified by the hash or by the first DNS name of its leaf certificate: where the encodings
    -- give back what they are given, the name has no colon, and the public key of the leaf
    -- certificate verifies what the signer signs.
    pub validate-generate_request_object_jwt :
        (leaf : Certificate) (rest : List Certificate) (signer : Signer Jwk) (variant : X509Variant)
        (wallet_metadata : WalletMetadata) (body request : AuthorizationRequestObject)
        (trusted_roots : Option (List Certificate)) {c : X509Client Jwk Certificate}
        {jwt alg : String} {algs : List String} {key : Key}
        → IsFaithful codec
        → ((d : List ℕ) → x509.to_der leaf ≡ ok d → x509.from_der d ≡ ok leaf)
        → keys.from_spki (x509.subject_public_key_info leaf) alg ≡ ok key
        → ((payload : String) (signature : List ℕ)
            → signer.sign payload ≡ ok signature
            → keys.verify key payload signature ≡ ok tt)
        → signer.alg ≡ ok alg
        → get (Parameters.request_object_signing_alg_values_supported ms) wallet_metadata.inner
          ≡ some (ok algs)
        → contains algs alg ≡ true
        → new_x509 codec s x509 (leaf ∷ rest) signer variant ≡ ok c
        → Lacks b':' c.id.id
        → (x509_client codec s x509 c).generate_request_object_jwt body ≡ ok jwt
        → request.client_id ≡ (x509_client codec s x509 c).id
        → validate codec x509 keys ms variant wallet_metadata request jwt trusted_roots ≡ ok tt
    unfolding x509_client
    validate-generate_request_object_jwt leaf rest signer variant wallet_metadata body request
          trusted_roots {c} {jwt} {alg} {algs} {key} faithful der_law spki verifies alg_e algs_e
          supported made lacks signed same =
        let (id, id_e, c_e) = new_x509_parts codec s x509 leaf rest signer variant made in
        let (der, chain, h, b, sig, der_e, h_e, sig_e, jwt_e) =
          signed_parts (record { id = id; prefix = to_prefix variant }) leaf rest signer variant alg
            body alg_e (rw c_e at signed) in
        let (headers, read, alg_read, x5c_read) =
          faithful.headers alg "x5c" (array (of_items (string (codec.standard_encode der) ∷ chain)))
            h refl refl h_e in
        let request_id : request.client_id.id ≡ id = cc in
        validate_parts variant wallet_metadata request trusted_roots leaf
          (codec.url_encode (codec.as_bytes h)) (codec.url_encode (codec.as_bytes b)) jwt alg
          (codec.standard_encode der) chain sig (codec.as_bytes h) der headers algs key
          (rw jwt_e (faithful.pieces (codec.as_bytes h) (codec.as_bytes b) sig))
          (faithful.url (codec.as_bytes h)) read alg_read x5c_read algs_e supported
          (faithful.standard der) (der_law der der_e) (rw same lacks)
          (rw request_id (ensure_client_id_matches_leaf-leaf_id variant leaf id der id_e der_e))
          spki (faithful.url sig) (verifies _ sig sig_e)
