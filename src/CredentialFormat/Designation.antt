-- ===== src/CredentialFormat/Designation.antt =====
-- core/credential_format/mod.rs: `ClaimFormatDesignation`, the name of a claim format.
use text.Mathlib.TextEquality.{eq_iff}
use openid4vp.Common.{
  String, ◌≡◌, refl, Eq, derived, ◌==◌, string_eq, String-discrete, if◌then◌else◌, arith,
}

pub data ClaimFormatDesignation : Type 0 where
  jwt jwt_vc sd_jwt_vc jwt_vp jwt_vc_json jwt_vp_json : ClaimFormatDesignation
  ldp ldp_vc ldp_vp ac_vc ac_vp mso_mdoc : ClaimFormatDesignation
  other : String → ClaimFormatDesignation

unfoldable pub ClaimFormatDesignation-discrete : Discrete ClaimFormatDesignation
unfolding String-discrete
ClaimFormatDesignation-discrete = hlevel String-discrete

instance abbrev pub designation_eq : Eq ClaimFormatDesignation
designation_eq = derived ClaimFormatDesignation-discrete

-- `from_name`, which `From<&str>`, `From<String>`, `FromStr` and `Deserialize` call.
unfoldable pub from_name : String → ClaimFormatDesignation
from_name name =
    if name == "jwt"
    then jwt
    else if name == "jwt_vc"
    then jwt_vc
    else if name == "jwt_vp"
    then jwt_vp
    else if name == "jwt_vc_json"
    then jwt_vc_json
    else if name == "dc+sd-jwt"
    then sd_jwt_vc
    else if name == "jwt_vp_json"
    then jwt_vp_json
    else if name == "ldp"
    then ldp
    else if name == "ldp_vc"
    then ldp_vc
    else if name == "ldp_vp"
    then ldp_vp
    else if name == "ac_vc"
    then ac_vc
    else if name == "ac_vp"
    then ac_vp
    else if name == "mso_mdoc"
    then mso_mdoc
    else other name

-- `name`, which `Display` and `Serialize` print, and `into_name`, which `From<…> for String` calls.
unfoldable pub name : ClaimFormatDesignation → String
name jwt = "jwt"
name jwt_vc = "jwt_vc"
name jwt_vp = "jwt_vp"
name jwt_vc_json = "jwt_vc_json"
name sd_jwt_vc = "dc+sd-jwt"
name jwt_vp_json = "jwt_vp_json"
name ldp = "ldp"
name ldp_vc = "ldp_vc"
name ldp_vp = "ldp_vp"
name ac_vc = "ac_vc"
name ac_vp = "ac_vp"
name mso_mdoc = "mso_mdoc"
name (other s) = s

-- The designation that is read from a name has that name.
pub name-from_name : (s : String) → name (from_name s) ≡ s
unfolding name from_name
name-from_name s = ground (
  arith,
  eq_iff s "jwt",
  eq_iff s "jwt_vc",
  eq_iff s "jwt_vp",
  eq_iff s "jwt_vc_json",
  eq_iff s "dc+sd-jwt",
  eq_iff s "jwt_vp_json",
  eq_iff s "ldp",
  eq_iff s "ldp_vc",
  eq_iff s "ldp_vp",
  eq_iff s "ac_vc",
  eq_iff s "ac_vp",
  eq_iff s "mso_mdoc",
)

-- A designation that is not `other` with the name of a registered one.
abbrev pub IsRegistered : ClaimFormatDesignation → Type 0
IsRegistered (other s) = ⊥
IsRegistered _ = Unit

-- A registered designation is read back from its name.
pub from_name-name : (d : ClaimFormatDesignation) → IsRegistered d → from_name (name d) ≡ d
unfolding name from_name
from_name-name jwt h = refl
from_name-name (other s) h = absurd h
from_name-name _ h = refl
