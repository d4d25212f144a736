-- ===== src/Parameters/Prefix.antt =====
-- core/authorization_request/parameters.rs: the client identifier prefixes.
use text.Mathlib.TextEquality.{eq_iff}
use openid4vp.Common.{
  String, ◌<>◌, ◌≡◌, refl, ok, err, Result, Anyhow, [], ◌∷◌, Eq, derived, ◌==◌, string_eq,
  if◌then◌else◌, arith,
}

pub data ClientIdPrefix : Type 0 where
  decentralized_identifier openid_federation pre_registered redirect_uri : ClientIdPrefix
  verifier_attestation origin x509_san_dns x509_hash : ClientIdPrefix

unfoldable pub ClientIdPrefix-discrete : Discrete ClientIdPrefix
ClientIdPrefix-discrete = hlevel

instance abbrev pub prefix_eq : Eq ClientIdPrefix
prefix_eq = derived ClientIdPrefix-discrete

-- `From<ClientIdPrefix> for String`, which `Display` prints too.
unfoldable pub into_string : ClientIdPrefix → String
into_string decentralized_identifier = "decentralized_identifier"
into_string openid_federation = "openid_federation"
into_string pre_registered = "pre-registered"
into_string redirect_uri = "redirect_uri"
into_string verifier_attestation = "verifier_attestation"
into_string origin = "origin"
into_string x509_san_dns = "x509_san_dns"
into_string x509_hash = "x509_hash"

-- `TryFrom<String> for ClientIdPrefix`
unfoldable pub try_from : String → Result Anyhow ClientIdPrefix
try_from value =
    if value == "decentralized_identifier"
    then ok decentralized_identifier
    else if value == "openid_federation"
    then ok openid_federation
    else if value == "pre-registered"
    then ok pre_registered
    else if value == "redirect_uri"
    then ok redirect_uri
    else if value == "verifier_attestation"
    then ok verifier_attestation
    else if value == "origin"
    then ok origin
    else if value == "x509_san_dns"
    then ok x509_san_dns
    else if value == "x509_hash"
    then ok x509_hash
    else err (("Given client id prefix is not supported: " <> value) ∷ [])

pub try_from-into_string : (p : ClientIdPrefix) → try_from (into_string p) ≡ ok p
unfolding try_from into_string
try_from-into_string decentralized_identifier = refl
try_from-into_string _ = refl

-- A text that is read as a client identifier prefix is the text that the prefix is printed as.
pub into_string_of_try_from :
    (s : String) (p : ClientIdPrefix) → try_from s ≡ ok p → into_string p ≡ s
unfolding try_from into_string
into_string_of_try_from s p h = ground (
  arith,
  eq_iff s "decentralized_identifier",
  eq_iff s "openid_federation",
  eq_iff s "pre-registered",
  eq_iff s "redirect_uri",
  eq_iff s "verifier_attestation",
  eq_iff s "origin",
  eq_iff s "x509_san_dns",
  eq_iff s "x509_hash",
)
