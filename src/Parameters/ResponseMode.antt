-- ===== src/Parameters/ResponseMode.antt =====
-- core/authorization_request/parameters.rs: `ResponseMode`.
use text.Mathlib.TextEquality.{eq_iff}
use openid4vp.Common.{
  String, ◌≡◌, refl, ◌≢◌, Eq, derived, ◌==◌, string_eq, String-discrete, if◌then◌else◌, arith, [],
  ◌∷◌, All,
}

pub data ResponseMode : Type 0 where
  direct_post direct_post_jwt fragment fragment_jwt dc_api dc_api_jwt : ResponseMode
  unsupported : String → ResponseMode

-- `#[default]`
abbrev pub default : ResponseMode
default = fragment

pub ResponseMode-discrete : Discrete ResponseMode
ResponseMode-discrete = hlevel String-discrete

instance abbrev pub mode_eq : Eq ResponseMode
mode_eq = derived ResponseMode-discrete

-- `From<String> for ResponseMode`
unfoldable pub from_string : String → ResponseMode
from_string s =
    if s == "direct_post"
    then direct_post
    else if s == "direct_post.jwt"
    then direct_post_jwt
    else if s == "fragment"
    then fragment
    else if s == "fragment.jwt"
    then fragment_jwt
    else if s == "dc_api"
    then dc_api
    else if s == "dc_api.jwt"
    then dc_api_jwt
    else unsupported s

-- `From<ResponseMode> for String`, and `Display`
unfoldable pub into_string : ResponseMode → String
into_string direct_post = "direct_post"
into_string direct_post_jwt = "direct_post.jwt"
into_string fragment = "fragment"
into_string fragment_jwt = "fragment.jwt"
into_string dc_api = "dc_api"
into_string dc_api_jwt = "dc_api.jwt"
into_string (unsupported u) = u

-- Every text that is read as a response mode is printed back as it was read.
pub into_string-from_string : (s : String) → into_string (from_string s) ≡ s
unfolding into_string from_string
into_string-from_string s = ground (
  arith,
  eq_iff s "direct_post",
  eq_iff s "direct_post.jwt",
  eq_iff s "fragment",
  eq_iff s "fragment.jwt",
  eq_iff s "dc_api",
  eq_iff s "dc_api.jwt",
)

-- An unsupported mode that has not the name of a supported one.
abbrev pub IsCanonical : ResponseMode → Type 0
IsCanonical (unsupported u) =
    All (λ name. u ≢ name)
      ("direct_post" ∷ "direct_post.jwt" ∷ "fragment" ∷ "fragment.jwt" ∷ "dc_api" ∷ "dc_api.jwt"
        ∷ [])
IsCanonical _ = Unit

-- A response mode is read back from what it is printed as, unless it is an unsupported one with
-- the name of a supported one.
pub from_string-into_string : (m : ResponseMode) → IsCanonical m → from_string (into_string m) ≡ m
unfolding into_string from_string
from_string-into_string (unsupported u) h = ground (
  arith,
  eq_iff u "direct_post",
  eq_iff u "direct_post.jwt",
  eq_iff u "fragment",
  eq_iff u "fragment.jwt",
  eq_iff u "dc_api",
  eq_iff u "dc_api.jwt",
)
from_string-into_string _ h = refl

pub from_string-IsCanonical : (s : String) → IsCanonical (from_string s)
unfolding from_string
from_string-IsCanonical s = ground (
  arith,
  eq_iff s "direct_post",
  eq_iff s "direct_post.jwt",
  eq_iff s "fragment",
  eq_iff s "fragment.jwt",
  eq_iff s "dc_api",
  eq_iff s "dc_api.jwt",
)
