-- ===== src/Dcql/Authority.antt =====
-- core/dcql.rs: identifiers, key identifiers and trusted authorities.
pub mod Laws
use openid4vp.Common.{
  String, Bool, List, [], ◌∷◌, Result, ok, err, Anyhow, ◌>>=◌, is_empty, if◌then◌else◌, ◌==◌,
  string_eq, ℕ,
}
use openid4vp.Json.{Json, string}
use openid4vp.Utils.{from_string_or_value}
use openid4vp.Utils.NonEmpty
use openid4vp.Utils.NonEmpty.{NonEmptyVec}

-- `ID(String)`
pub record DcqlId : Type 0 where
  pub text : String

abbrev pub id_regex : String
id_regex = "^[a-zA-Z0-9_-]+$"

-- `Regex::new` compiles a pattern to a test of texts, or fails.
module _ (regex : String → Result Anyhow (String → Bool)) where
  unfoldable pub new_id : String → Result Anyhow DcqlId
  new_id id = do
    is_match ← regex id_regex
    if is_match id
        then ok (record { text = id })
        else err ("ID must only contain alphanumeric characters, hyphens, and underscores" ∷ [])

  -- `TryFrom<Json> for ID`; the parameters are `from_str` and `from_value` at `String`.
  unfoldable pub id_try_from :
      (String → Result Anyhow String) → (Json → Result Anyhow String) → Json → Result Anyhow DcqlId
  unfolding new_id from_string_or_value
  id_try_from from_str from_value value = do
    parsed ← from_string_or_value from_str from_value value
    new_id parsed

-- `TryFrom<ID> for Json`
unfoldable pub id_into_json : DcqlId → Json
id_into_json id = string id.text

-- A list of bytes.
pub record KeyIdentifier : Type 0 where
  pub encoded : String
  pub bytes : List ℕ

pub data TrustedAuthority : Type 0 where
  aki : NonEmptyVec KeyIdentifier → TrustedAuthority
  etsi_tl openid_federation : NonEmptyVec String → TrustedAuthority
  other : (type : String) (values : NonEmptyVec String) → TrustedAuthority

pub record RawTrustedAuthority : Type 0 where
  pub type : String
  pub values : NonEmptyVec String

-- `encode` and `decode` are base64url without padding; `trim` is `trim_end_matches('=')`.
unfoldable pub from_bytes : (List ℕ → String) → List ℕ → Result Anyhow KeyIdentifier
from_bytes encode bytes =
    if is_empty bytes
    then err ("a Key Identifier cannot be empty" ∷ [])
    else ok (record { encoded = encode bytes; bytes = bytes })

module _ (trim : String → String) (decode : String → Result Anyhow (List ℕ)) where
  unfoldable pub from_base64url : String → Result Anyhow KeyIdentifier
  from_base64url encoded = do
    bytes ← decode (trim encoded)
    if is_empty bytes
        then err ("a Key Identifier cannot be empty" ∷ [])
        else ok (record { encoded = encoded; bytes = bytes })

  -- `into_iter().map(…).collect::<Result<Vec<_>, _>>()`
  unfoldable pub collect_keys : List String → Result Anyhow (List KeyIdentifier)
  unfolding from_base64url
  collect_keys [] = ok []
  collect_keys (value ∷ values) = do
    key ← from_base64url value
    keys ← collect_keys values
    ok (key ∷ keys)

  unfoldable pub aki_from : NonEmptyVec String → Result Anyhow TrustedAuthority
  unfolding collect_keys NonEmpty.try_from
  aki_from raw = do keys ← collect_keys raw.vec; values ← NonEmpty.try_from keys; ok (aki values)

  -- `TryFrom<RawTrustedAuthority> for TrustedAuthority`
  unfoldable pub try_from : RawTrustedAuthority → Result Anyhow TrustedAuthority
  unfolding aki_from
  try_from raw =
      if raw.type == "aki"
      then aki_from raw.values
      else if raw.type == "etsi_tl"
      then ok (etsi_tl raw.values)
      else if raw.type == "openid_federation"
      then ok (openid_federation raw.values)
      else ok (other raw.type raw.values)

-- `From<TrustedAuthority> for RawTrustedAuthority`
unfoldable pub into_raw : TrustedAuthority → RawTrustedAuthority
unfolding NonEmpty.map
into_raw (aki values) = record {
  type = "aki";
  values = NonEmpty.map (λ value. value.encoded) values;
}
into_raw (etsi_tl values) = record { type = "etsi_tl"; values = values }
into_raw (openid_federation values) = record { type = "openid_federation"; values = values }
into_raw (other type values) = record { type = type; values = values }
