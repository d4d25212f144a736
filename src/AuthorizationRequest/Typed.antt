-- ===== src/AuthorizationRequest/Typed.antt =====
-- core/authorization_request/parameters.rs: the implementations of `TypedParameter`.
use openid4vp.Common.{String, List, [], ◌∷◌, map as vec_map, Result, ok, err, Anyhow, ◌>>=◌, map_ok}
use openid4vp.Json.{Json, string, array, of_items}
use openid4vp.Object.{UntypedObject, TypedParameter, into_json}
use openid4vp.Parameters.ClientId
use openid4vp.Parameters.ClientId.{ClientId}
use openid4vp.Parameters.ResponseMode
use openid4vp.Parameters.ResponseMode.{ResponseMode}
use openid4vp.Parameters.ResponseType
use openid4vp.Parameters.ResponseType.{ResponseType}
use openid4vp.PresentationDefinition.{PresentationDefinition}
use openid4vp.Dcql.Query.{Dcql}
use openid4vp.Utils.{from_string_or_value}
use openid4vp.Utils.NonEmpty.{NonEmptyVec}

-- `serde_json::from_value` and `from_str` at the types that the parameters are read at, the
-- serialisation of two of them, and `Url::parse(…)?.origin()`. A URL and an origin are texts.
pub record Serde : Type 0 where
  pub to_text : Json → Result Anyhow String
  pub to_url : Json → Result Anyhow String
  pub to_texts : Json → Result Anyhow (NonEmptyVec String)
  pub object_from_str : String → Result Anyhow UntypedObject
  pub object_from_value : Json → Result Anyhow UntypedObject
  pub definition_from_str : String → Result Anyhow PresentationDefinition
  pub definition_from_value : Json → Result Anyhow PresentationDefinition
  pub definition_to_value : PresentationDefinition → Result Anyhow Json
  pub dcql_from_str : String → Result Anyhow Dcql
  pub dcql_from_value : Json → Result Anyhow Dcql
  pub dcql_to_value : Dcql → Result Anyhow Json
  pub parse_origin : String → Result Anyhow String

-- `TryFrom<Json> for ClientId`
unfoldable pub client_id_from : Json → Result Anyhow ClientId
unfolding ClientId.new
client_id_from (string text) = ClientId.new text
client_id_from _ = err ("client_id is not a string" ∷ [])

unfoldable pub parse_origins :
    (String → Result Anyhow String) → List String → Result Anyhow (List String)
parse_origins parse_origin [] = ok []
parse_origins parse_origin (url ∷ urls) = do
  origin ← parse_origin url
  origins ← parse_origins parse_origin urls
  ok (origin ∷ origins)

-- A parameter that is a text.
abbrev text_param : Serde → String → TypedParameter String
text_param s key = record { key = key; try_from = s.to_text; try_into = λ t. ok (string t) }

-- A parameter that is a URL.
abbrev url_param : Serde → String → TypedParameter String
url_param s key = record { key = key; try_from = s.to_url; try_into = λ t. ok (string t) }

module _ (s : Serde) where
  abbrev pub state : TypedParameter String
  state = text_param s "state"

  abbrev pub nonce : TypedParameter String
  nonce = text_param s "nonce"

  abbrev pub wallet_nonce : TypedParameter String
  wallet_nonce = text_param s "wallet_nonce"

  abbrev pub redirect_uri : TypedParameter String
  redirect_uri = url_param s "redirect_uri"

  abbrev pub response_uri : TypedParameter String
  response_uri = url_param s "response_uri"

  abbrev pub presentation_definition_uri : TypedParameter String
  presentation_definition_uri = url_param s "presentation_definition_uri"

  abbrev pub client_id : TypedParameter ClientId
  client_id = record {
    key = "client_id";
    try_from = client_id_from;
    try_into = λ c. ok (string (ClientId.get_full_id c));
  }

  abbrev pub response_mode : TypedParameter ResponseMode
  response_mode = record {
    key = "response_mode";
    try_from = λ v. map_ok ResponseMode.from_string (s.to_text v);
    try_into = λ m. ok (string (ResponseMode.into_string m));
  }

  abbrev pub response_type : TypedParameter ResponseType
  response_type = record {
    key = "response_type";
    try_from = λ v. map_ok ResponseType.from_string (s.to_text v);
    try_into = λ t. ok (string (ResponseType.into_string t));
  }

  abbrev pub client_metadata : TypedParameter UntypedObject
  client_metadata = record {
    key = "client_metadata";
    try_from = from_string_or_value s.object_from_str s.object_from_value;
    try_into = λ o. ok (into_json o);
  }

  -- There are as many origins as there are texts, and of those there is one at least: the
  -- `unwrap` behind `maybe_new` does not panic.
  abbrev pub expected_origins : TypedParameter (NonEmptyVec String)
  expected_origins = record {
    key = "expected_origins";
    try_from = λ v. s.to_texts v >>= λ urls.
        map_ok (λ origins. record { vec = origins }) (parse_origins s.parse_origin urls.vec);
    try_into = λ origins. ok (array (of_items (vec_map string origins.vec)));
  }

  abbrev pub presentation_definition : TypedParameter PresentationDefinition
  presentation_definition = record {
    key = "presentation_definition";
    try_from = from_string_or_value s.definition_from_str s.definition_from_value;
    try_into = s.definition_to_value;
  }

  abbrev pub dcql_query : TypedParameter Dcql
  dcql_query = record {
    key = "dcql_query";
    try_from = from_string_or_value s.dcql_from_str s.dcql_from_value;
    try_into = s.dcql_to_value;
  }
