-- ===== src/Parameters/ResponseType.antt =====
-- core/authorization_request/parameters.rs: `ResponseType` and `IdTokenType`.
use text.Mathlib.TextEquality.{eq_iff}
use openid4vp.Common.{
  String, ◌≡◌, Eq, derived, ◌==◌, string_eq, String-discrete, if◌then◌else◌, arith,
}

pub data ResponseType : Type 0 where
  vp_token vp_token_id_token : ResponseType
  unsupported : String → ResponseType

unfoldable pub ResponseType-discrete : Discrete ResponseType
ResponseType-discrete = hlevel String-discrete

instance abbrev pub type_eq : Eq ResponseType
type_eq = derived ResponseType-discrete

-- `From<ResponseType> for String`
unfoldable pub into_string : ResponseType → String
into_string vp_token = "vp_token"
into_string vp_token_id_token = "vp_token id_token"
into_string (unsupported s) = s

-- `From<String> for ResponseType`
unfoldable pub from_string : String → ResponseType
from_string s =
    if s == "vp_token"
    then vp_token
    else if s == "vp_token id_token"
    then vp_token_id_token
    else unsupported s

pub into_string-from_string : (s : String) → into_string (from_string s) ≡ s
unfolding into_string from_string
into_string-from_string s = ground (arith, eq_iff s "vp_token", eq_iff s "vp_token id_token")

pub data IdTokenType : Type 0 where
  subject_signed : IdTokenType
  unsupported_type : String → IdTokenType

-- `From<IdTokenType> for String`
unfoldable pub id_token_type_into_string : IdTokenType → String
id_token_type_into_string subject_signed = "subject_signed_id_token"
id_token_type_into_string (unsupported_type s) = s

-- `From<String> for IdTokenType`
unfoldable pub id_token_type_from_string : String → IdTokenType
id_token_type_from_string s =
    if s == "subject_signed_id_token" then subject_signed else unsupported_type s

pub id_token_type_into_string-from_string :
    (s : String) → id_token_type_into_string (id_token_type_from_string s) ≡ s
unfolding id_token_type_into_string id_token_type_from_string
id_token_type_into_string-from_string s = ground (arith, eq_iff s "subject_signed_id_token")
