-- ===== src/CredentialFormat/Format.antt =====
-- core/credential_format/mod.rs: `ClaimFormat`.
use openid4vp.Common.{String, List, result_or, Result, Anyhow, ◌≡◌, refl}
use openid4vp.Json.{Json, object, field}
use openid4vp.CredentialFormat.Designation as D
use openid4vp.CredentialFormat.Designation.{ClaimFormatDesignation}

pub data ClaimFormat : Type 0 where
  jwt jwt_vc : (alg : List String) → ClaimFormat
  sd_jwt_vc : (jwt_alg_values kb_alg_values : List String) → ClaimFormat
  jwt_vp : (alg : List String) → ClaimFormat
  jwt_vc_json jwt_vp_json : (alg_values_supported : List String) → ClaimFormat
  ldp ldp_vc ldp_vp ac_vc ac_vp : (proof_type : List String) → ClaimFormat
  mso_mdoc other : Json → ClaimFormat

-- The first key of an object, or "other".
first_key : Json → String
first_key (object (field k v fs)) = k
first_key _ = "other"

unfoldable pub designation : ClaimFormat → ClaimFormatDesignation
unfolding first_key
designation (jwt _) = D.jwt
designation (jwt_vc _) = D.jwt_vc
designation (sd_jwt_vc _ _) = D.sd_jwt_vc
designation (jwt_vc_json _) = D.jwt_vc_json
designation (jwt_vp _) = D.jwt_vp
designation (jwt_vp_json _) = D.jwt_vp_json
designation (ldp _) = D.ldp
designation (ldp_vc _) = D.ldp_vc
designation (ldp_vp _) = D.ldp_vp
designation (ac_vc _) = D.ac_vc
designation (ac_vp _) = D.ac_vp
designation (mso_mdoc _) = D.mso_mdoc
designation (other value) = D.other (first_key value)

-- `to_string` is `serde_json::to_string`.
unfoldable pub name : (Json → Result Anyhow String) → ClaimFormat → String
name to_string (jwt _) = "jwt"
name to_string (jwt_vc _) = "jwt_vc"
name to_string (sd_jwt_vc _ _) = "dc+sd-jwt"
name to_string (jwt_vp _) = "jwt_vp"
name to_string (jwt_vc_json _) = "jwt_vc_json"
name to_string (jwt_vp_json _) = "jwt_vp_json"
name to_string (ldp _) = "ldp"
name to_string (ldp_vc _) = "ldp_vc"
name to_string (ldp_vp _) = "ldp_vp"
name to_string (ac_vc _) = "ac_vc"
name to_string (ac_vp _) = "ac_vp"
name to_string (mso_mdoc _) = "mso_mdoc"
name to_string (other v) = result_or "other" (to_string v)

-- What a registered format is called is the name of its designation.
pub name-designation :
    (to_string : Json → Result Anyhow String) (f : ClaimFormat)
    → D.IsRegistered (designation f)
    → D.name (designation f) ≡ name to_string f
unfolding designation name D.name
name-designation to_string (jwt _) h = refl
name-designation to_string (other v) h = absurd h
name-designation to_string _ h = refl
