-- ===== src/Verification/Did/Laws.antt =====
-- A request that a client with a decentralized identifier signs, at the wallet.
use openid4vp.Common.{
  ℕ, String, ◌<>◌, true, List, Option, none, some, Result, ok, Anyhow, contains, ◌≡◌, refl, ◌∙◌,
  inl, inr, Option-cases, nat_eq, string_eq, arith, beq_refl, Eq,
}
use openid4vp.Common.Dict
use openid4vp.Common.Dict.{Dict}
use openid4vp.Json.{Json, string}
use openid4vp.Object.{UntypedObject, get, into_json}
use openid4vp.Parameters.ClientId.{ClientId}
use openid4vp.Parameters.Prefix
use openid4vp.Parameters.ClientId.Laws.{Lacks}
use openid4vp.AuthorizationRequest.Typed.{Serde}
use openid4vp.AuthorizationRequest.Object.{AuthorizationRequestObject, into_object, read_state}
use openid4vp.AuthorizationRequest.Object.Matching.{parsing_error_iff}
use openid4vp.Signer.{Signer, Codec}
use openid4vp.Metadata.Parameters
use openid4vp.Verification.Metadata.{WalletMetadata, MetadataSerde}
use openid4vp.Verifier.Client.{
  DecentralizedIdentifierClient, header, new_did, did_client, rsplit_once, sign_request,
}
use openid4vp.Verifier.Client.Laws.{sign_request_parts, new_did_parts}
use openid4vp.Verification.X509.Laws.{IsFaithful}
use openid4vp.Verification.Did.{
  split_once, check_supported, check_did, check_trusted, verify_with_resolver,
}

-- Where the last separator is the first one too, a text is split alike from both ends.
split_once_of_rsplit_once :
    (sep : ℕ) (s : String) {a b : String}
    → rsplit_once sep s ≡ some (a, b)
    → Lacks sep a
    → split_once sep s ≡ some (a, b)
unfolding split_once rsplit_once
split_once_of_rsplit_once sep String.[] h lacks = cc
split_once_of_rsplit_once sep (String.◌∷◌ c s) {a} {b} h lacks =
    elim (Option-cases (rsplit_once sep s)) [
      | inl e ↦ ground arith
      | inr ((a', b'), e) ↦ ground (arith, split_once_of_rsplit_once sep s e)
    ]

check_supported_of_contains :
    (state : Option String) (algs : List String) (alg : String)
    → contains algs alg ≡ true
    → check_supported state algs alg ≡ ok tt
unfolding check_supported
check_supported_of_contains state algs alg h = rw h refl

-- The DID may be any where no list is given, and is listed otherwise.
abbrev pub IsTrusted : Option (List String) → String → Type 0
IsTrusted none did = Unit
IsTrusted (some dids) did = contains dids did ≡ true

check_trusted-IsTrusted :
    (state : Option String) (trusted : Option (List String)) (did : String)
    → IsTrusted trusted did
    → check_trusted state trusted did ≡ ok tt
unfolding check_trusted
check_trusted-IsTrusted state none did h = refl
check_trusted-IsTrusted state (some dids) did h = rw h refl

check_did_of_eq :
    (state : Option String) (c : ClientId) (did : String)
    → c.id ≡ did
    → check_did state c did ≡ ok tt
unfolding check_did
check_did_of_eq state c did e = rw e (rw (beq_refl did) refl)

module _ {Jwk : Type 0} (codec : Codec Jwk) (s : Serde) (ms : MetadataSerde) where
  verify_parts :
      (wallet_metadata : WalletMetadata) (request : AuthorizationRequestObject)
      (trusted : Option (List String)) (fetch : String → Result Anyhow Jwk)
      (h b sig jwt alg kid did fragment : String) (bytes : List ℕ) (headers : Dict String Json)
      (algs : List String) (jwk : Jwk) (claims : Json)
      → codec.split_jws jwt ≡ ok (h, b, sig)
      → codec.url_decode h ≡ ok bytes
      → codec.headers_from_slice bytes ≡ ok headers
      → Dict.lookup "alg" headers ≡ some (string alg)
      → Dict.lookup "kid" headers ≡ some (string kid)
      → get (Parameters.request_object_signing_alg_values_supported ms) wallet_metadata.inner
        ≡ some (ok algs)
      → contains algs alg ≡ true
      → split_once b'#' kid ≡ some (did, fragment)
      → request.client_id.id ≡ did
      → IsTrusted trusted did
      → fetch kid ≡ ok jwk
      → codec.decode_verify jwt jwk ≡ ok claims
      → verify_with_resolver codec s ms wallet_metadata request jwt trusted fetch ≡ ok tt
  unfolding verify_with_resolver
  verify_parts wallet_metadata request trusted fetch h b sig jwt alg kid did fragment bytes headers
        algs jwk claims split url json alg_e kid_e algs_e supported parts same listed fetched
        verified =
      let p = Parameters.request_object_signing_alg_values_supported ms in
      let state = read_state s request.inner in
      let kept : Dict.lookup "kid" (Dict.erase "alg" headers) ≡ some (string kid) =
        Dict.lookup-erase "kid" "alg" headers ∙ kid_e in
      rw
        (
          verify_with_resolver,
          split,
          url,
          json,
          alg_e,
          (parsing_error_iff p (get p wallet_metadata.inner)).1 algs_e,
          check_supported_of_contains state algs alg supported,
          kept,
          parts,
          check_did_of_eq state request.client_id did same,
          check_trusted-IsTrusted state trusted did listed,
          fetched,
          verified,
        )
        refl

  signed_parts :
      (id : ClientId) (vm : String) (signer : Signer Jwk) (alg : String)
      (body : AuthorizationRequestObject) {jwt : String}
      → signer.alg ≡ ok alg
      → (did_client codec s
            (record { id = id; vm = vm; signer = signer })).generate_request_object_jwt
          body
        ≡ ok jwt
      → sign_request codec signer s (header alg "kid" (string vm)) body ≡ ok jwt
  unfolding did_client
  signed_parts id vm signer alg body alg_e p = rw alg_e at p

  -- A wallet that supports the algorithm of the signer accepts every request object that a client
  -- with a decentralized identifier signs, for a request with the identifier of that client: where
  -- the encodings give back what they are given, the identifier has no `#`, it is trusted, the
  -- resolver of the wallet finds the key that the one of the verifier found, and that key verifies
  -- what the signer signs of the header of this client and of the JSON of an object.
  pub verify_with_resolver-generate_request_object_jwt :
      ⦃jwk_eq : Eq Jwk⦄ (vm : String) (signer : Signer Jwk) (wallet_metadata : WalletMetadata)
      (body request : AuthorizationRequestObject) (trusted_dids : Option (List String))
      (fetch wallet_fetch : String → Result Anyhow Jwk) {c : DecentralizedIdentifierClient Jwk}
      {jwt alg : String} {algs : List String}
      → IsFaithful codec
      → ((jwk : Jwk) (claims : UntypedObject) (h b : String) (sig : List ℕ)
          → signer.jwk ≡ ok jwk
          → codec.to_text (header alg "kid" (string vm)) ≡ ok h
          → codec.to_text (into_json claims) ≡ ok b
          → signer.sign
              (codec.url_encode (codec.as_bytes h) <> "." <> codec.url_encode (codec.as_bytes b))
            ≡ ok sig
          → (read : Json) × (codec.decode_verify
                (codec.url_encode (codec.as_bytes h)
                  <> "."
                  <> codec.url_encode (codec.as_bytes b)
                  <> "."
                  <> codec.url_encode sig)
                jwk
              ≡ ok read))
      → signer.alg ≡ ok alg
      → get (Parameters.request_object_signing_alg_values_supported ms) wallet_metadata.inner
        ≡ some (ok algs)
      → contains algs alg ≡ true
      → new_did fetch vm signer ≡ ok c
      → wallet_fetch vm ≡ fetch vm
      → Lacks b'#' c.id.id
      → IsTrusted trusted_dids c.id.id
      → (did_client codec s c).generate_request_object_jwt body ≡ ok jwt
      → request.client_id ≡ (did_client codec s c).id
      → verify_with_resolver codec s ms wallet_metadata request jwt trusted_dids wallet_fetch
        ≡ ok tt
  unfolding did_client
  verify_with_resolver-generate_request_object_jwt vm signer wallet_metadata body request
        trusted_dids fetch wallet_fetch {c} {jwt} {alg} {algs} faithful verifies alg_e algs_e
        supported made fetches lacks listed signed same =
      let (did, fragment, jwk, vm_e, fetch_e, jwk_e, c_e) = new_did_parts fetch vm signer made in
      let (h, b, sig, h_e, b_e, sig_e, jwt_e) =
        sign_request_parts codec signer s (header alg "kid" (string vm)) body (
          signed_parts (record { id = did; prefix = Prefix.decentralized_identifier }) vm signer alg
            body alg_e (rw c_e at signed)) in
      let (headers, read, alg_read, kid_read) =
        faithful.headers alg "kid" (string vm) h refl refl h_e in
      let (claims, verified) = verifies jwk (into_object s body) h b sig jwk_e h_e b_e sig_e in
      let did_e : c.id.id ≡ did = cc in
      verify_parts wallet_metadata request trusted_dids wallet_fetch
        (codec.url_encode (codec.as_bytes h)) (codec.url_encode (codec.as_bytes b))
        (codec.url_encode sig) jwt alg vm did fragment (codec.as_bytes h) headers algs jwk claims
        (rw jwt_e (faithful.pieces (codec.as_bytes h) (codec.as_bytes b) sig))
        (faithful.url (codec.as_bytes h)) read alg_read kid_read algs_e supported
        (split_once_of_rsplit_once b'#' vm vm_e (rw did_e at lacks)) (cc) (rw did_e at listed)
        (fetches ∙ fetch_e) (rw jwt_e verified)
