-- ===== src/Signer.antt =====
-- signer.rs, and the libraries that JWTs are made and read with.
use openid4vp.Common.{ℕ, String, List, Result, Anyhow}
use openid4vp.Common.Dict.{Dict}
use openid4vp.Json.{Json}

-- The trait `Signer`; the payload is given as the text whose bytes are signed.
pub record Signer (Jwk : Type 0) : Type 0 where
  pub alg : Result Anyhow String
  pub jwk : Result Anyhow Jwk
  pub sign : String → Result Anyhow (List ℕ)

-- `base64`, `serde_json` and `ssi`: the encodings of bytes, a value as text, the headers of a JWT
-- read from bytes, the pieces of a JWS, and the claims of a JWT whose signature a key verifies.
pub record Codec (Jwk : Type 0) : Type 0 where
  pub as_bytes : String → List ℕ
  pub url_encode : List ℕ → String
  pub url_decode : String → Result Anyhow (List ℕ)
  pub standard_encode : List ℕ → String
  pub standard_decode_no_pad : String → Result Anyhow (List ℕ)
  pub to_text : Json → Result Anyhow String
  pub headers_from_slice : List ℕ → Result Anyhow (Dict String Json)
  pub split_jws : String → Result Anyhow (String × String × String)
  pub decode_verify : String → Jwk → Result Anyhow Json

-- `x509_cert`: the DER form of a certificate, its extensions of the type `SubjectAltName`, and its
-- `subject_public_key_info`, as a text.
pub data GeneralName : Type 0 where
  dns_name : String → GeneralName
  other_name : GeneralName

pub record X509 (Certificate : Type 0) : Type 0 where
  pub to_der : Certificate → Result Anyhow (List ℕ)
  pub from_der : List ℕ → Result Anyhow Certificate
  pub subject_alt_names : Certificate → List (Result Anyhow (List GeneralName))
  pub subject_public_key_info : Certificate → String
  pub sha256 : List ℕ → List ℕ
