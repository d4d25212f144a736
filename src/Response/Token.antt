-- ===== src/Response/Token.antt =====
-- core/response/parameters.rs: ID tokens, VP tokens and the hashes of transaction data.
use openid4vp.Common.{
  ℕ, String, code, Option, none, some, List, [], ◌∷◌, map, Result, ok, err, Anyhow, ◌>>=◌, ◌==◌,
  nat_eq, if◌then◌else◌,
}
use openid4vp.Common.Dict.{Dict}
use openid4vp.Json.{Json, string, array, object, entries, of_items}
use openid4vp.Object.{TypedParameter}
use openid4vp.Parameters.Algorithms
use openid4vp.Parameters.Algorithms.{HashAlgorithm}
use openid4vp.PresentationSubmission.Types.{PresentationSubmission}
use openid4vp.Verification.X509.{trim_end_matches}

-- An `i64`: here a time, which is only carried along.
pub data ℤ : Type 0 where
  pos negsuc : ℕ → ℤ

-- A key is the JSON value that it is read from.
pub record IdTokenBody : Type 0 where
  pub issuer : String
  pub subject : String
  pub audience : String
  pub nonce : String
  pub sub_jwk : Option Json
  pub issued_at : Option ℤ
  pub expiration_time : ℤ
  pub other : Option (Dict String Json)

pub record IdToken : Type 0 where
  pub raw : String
  pub parsed : IdTokenBody

pub data VpTokenItem : Type 0 where
  string_item : String → VpTokenItem
  json_object : Dict String Json → VpTokenItem

pub record VpToken : Type 0 where
  pub items : List VpTokenItem

-- What `serde`, `ssi` and `serde_json` do for these types. `to_string` prints a JSON value;
-- `decode_id_token` is `decode_unverified` at the body of an ID token; the value of a VP token is
-- made by `OneOrManyRef`.
pub record ResponseSerde : Type 0 where
  pub to_string : Json → String
  pub to_text : Json → Result Anyhow String
  pub decode_id_token : String → Result Anyhow IdTokenBody
  pub vp_token_to_value : VpToken → Json
  pub vp_token_from_value : Json → Result Anyhow VpToken
  pub vp_token_from_str : String → Result Anyhow VpToken
  pub submission_to_value : PresentationSubmission → Result Anyhow Json
  pub submission_from_value : Json → Result Anyhow PresentationSubmission
  pub submission_to_string : PresentationSubmission → Result Anyhow String
  pub submission_from_str : String → Result Anyhow PresentationSubmission
  pub hashes_from_value : Json → Result Anyhow (List String)
  pub hashes_from_str : String → Result Anyhow (List String)

-- `IdToken::jwt`
unfoldable pub jwt : IdToken → String
jwt t = t.raw

-- `str::trim_start_matches` and `str::trim_matches`, for a character
unfoldable pub trim_start_matches : ℕ → String → String
trim_start_matches char String.[] = ""
trim_start_matches char (String.◌∷◌ c s) =
    let rest = trim_start_matches char s in if code c == char then rest else String.◌∷◌ c s

unfoldable pub trim_matches : ℕ → String → String
unfolding trim_start_matches trim_end_matches
trim_matches char s = trim_end_matches char (trim_start_matches char s)

-- `From<String> for VpToken`
unfoldable pub from_string : String → VpToken
from_string value = record { items = string_item value ∷ [] }

-- The conversion of a presentation, whose value is `value`, to an item; `none` where the code
-- panics.
unfoldable pub from_presentation : Result Anyhow Json → Option VpTokenItem
from_presentation (ok (object fields)) = some (json_object (entries fields))
from_presentation _ = none

module _ (r : ResponseSerde) where
  -- `TryFrom<String> for IdToken`
  unfoldable pub try_from_string : String → Result Anyhow IdToken
  try_from_string raw = do
    parsed ← r.decode_id_token raw
    ok (record { raw = raw; parsed = parsed })

  -- `TryFrom<Json> for IdToken`
  unfoldable pub try_from_json : Json → Result Anyhow IdToken
  unfolding try_from_string
  try_from_json (string raw) = try_from_string raw
  try_from_json _ = err ("IdToken must be json string" ∷ [])

  -- A token of one text is printed without its quotes.
  unfoldable pub format_to_string : VpToken → String
  unfolding trim_matches
  format_to_string t = elim t.items [
    | string_item s ∷ [] ↦ trim_matches b'"' (r.to_string (r.vp_token_to_value t))
    | _ ↦ r.to_string (r.vp_token_to_value t)
  ]

  abbrev pub id_token : TypedParameter IdToken
  id_token = record {
    key = "id_token";
    try_from = try_from_json;
    try_into = λ t. ok (string t.raw);
  }

  abbrev pub vp_token : TypedParameter VpToken
  vp_token = record {
    key = "vp_token";
    try_from = r.vp_token_from_value;
    try_into = λ t. ok (r.vp_token_to_value t);
  }

  abbrev pub presentation_submission : TypedParameter PresentationSubmission
  presentation_submission = record {
    key = "presentation_submission";
    try_from = r.submission_from_value;
    try_into = r.submission_to_value;
  }

  abbrev pub transaction_data_hashes : TypedParameter (List String)
  transaction_data_hashes = record {
    key = "transaction_data_hashes";
    try_from = r.hashes_from_value;
    try_into = λ ts. ok (array (of_items (map string ts)));
  }

  abbrev pub transaction_data_hashes_alg : TypedParameter HashAlgorithm
  transaction_data_hashes_alg = record {
    key = "transaction_data_hashes_alg";
    try_from = λ value. r.to_text value >>= Algorithms.try_from;
    try_into = λ alg. ok (string (Algorithms.show alg));
  }
