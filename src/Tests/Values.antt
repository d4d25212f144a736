-- ===== src/Tests/Values.antt =====
-- Texts and values that are parsed and printed.
use openid4vp.Common.{ℕ, String, true, List, [], ◌∷◌, Result, ok, Anyhow, string_eq, ◌≡◌, ◌↔◌, refl}
use openid4vp.Parameters.Prefix.{x509_san_dns, pre_registered}
use openid4vp.Parameters.ClientId
use openid4vp.Parameters.ClientId.{ClientId, get_full_id, deserialize}
use openid4vp.Parameters.ClientId.Laws.{new_iff, deserialize_iff, Accepts}
use openid4vp.CredentialFormat.Payload.{sd_jwt_alg_values, contains_payload}
use openid4vp.CredentialFormat.Payload.Laws.{Overlaps, contains_payload_iff}
use openid4vp.Dcql.Authority.{
  TrustedAuthority, aki, RawTrustedAuthority, try_from, into_raw, from_base64url,
}
use openid4vp.Dcql.Authority.Laws.{IsRead, try_from-into_raw, into_raw-try_from}

abbrev client : ClientId
client = record { id = "verifier.example:443"; prefix = x509_san_dns }

abbrev plain_client : ClientId
plain_client = record { id = "verifier"; prefix = pre_registered }

new_iff_example : (ClientId.new "verifier" ≡ ok plain_client) ↔ Accepts "verifier" plain_client
new_iff_example = new_iff "verifier" plain_client

deserialize_iff_example :
    (deserialize "x509_san_dns:verifier.example:443" ≡ ok client)
    ↔ (get_full_id client ≡ "x509_san_dns:verifier.example:443")
deserialize_iff_example = deserialize_iff "x509_san_dns:verifier.example:443" client

contains_payload_iff_example :
    (contains_payload
        (sd_jwt_alg_values ("ES256" ∷ "EdDSA" ∷ []) ("ES256" ∷ []))
        (sd_jwt_alg_values ("EdDSA" ∷ []) ("ES256" ∷ []))
      ≡ true)
    ↔ Overlaps
        (sd_jwt_alg_values ("ES256" ∷ "EdDSA" ∷ []) ("ES256" ∷ []))
        (sd_jwt_alg_values ("EdDSA" ∷ []) ("ES256" ∷ []))
contains_payload_iff_example =
    contains_payload_iff (sd_jwt_alg_values ("ES256" ∷ "EdDSA" ∷ []) ("ES256" ∷ []))
      (sd_jwt_alg_values ("EdDSA" ∷ []) ("ES256" ∷ []))

abbrev same_text : String → String
same_text s = s

abbrev one_byte : String → Result Anyhow (List ℕ)
one_byte s = ok (1 ∷ [])

abbrev authority : TrustedAuthority
authority = aki (record { vec = record { encoded = "AQ"; bytes = 1 ∷ [] } ∷ [] })

authority-IsRead : IsRead same_text one_byte authority
unfolding from_base64url
authority-IsRead = ((refl, tt), λ e. cc)

try_from-into_raw_example : try_from same_text one_byte (into_raw authority) ≡ ok authority
try_from-into_raw_example = try_from-into_raw same_text one_byte authority authority-IsRead

abbrev raw : RawTrustedAuthority
raw = record { type = "aki"; values = record { vec = "AQ" ∷ [] } }

reads_authority : try_from same_text one_byte raw ≡ ok authority
unfolding try_from from_base64url
reads_authority = refl

into_raw-try_from_example : IsRead same_text one_byte authority × (into_raw authority ≡ raw)
into_raw-try_from_example = into_raw-try_from same_text one_byte raw authority reads_authority
