-- ===== src/Parameters/ClientId.antt =====
-- core/authorization_request/parameters.rs: `ClientId`.
pub mod Laws
use openid4vp.Common.{
  ℕ, String, ◌<>◌, Char, code, ok, err, Result, Anyhow, ◌>>=◌, List, [], ◌∷◌, ◌==◌, nat_eq,
  string_eq, if◌then◌else◌, Option, none, some, arith,
}
use Prim.Native.String
use openid4vp.Parameters.Prefix
use openid4vp.Parameters.Prefix.{
  ClientIdPrefix, pre_registered, decentralized_identifier, redirect_uri,
}

pub record ClientId : Type 0 where
  pub id : String
  pub prefix : ClientIdPrefix

-- One more character in front of the first piece.
abbrev prepend : Char → List String → List String
prepend c [] = []
prepend c (piece ∷ pieces) = (String.◌∷◌ c piece) ∷ pieces

-- `str::splitn(2, separator)`, for a separator that is one character
unfoldable pub splitn_2 : ℕ → String → List String
splitn_2 separator String.[] = "" ∷ []
splitn_2 separator (String.◌∷◌ c s) =
    let rest = splitn_2 separator s in if code c == separator then "" ∷ s ∷ [] else prepend c rest

-- What `new` makes of the pieces of a text that is not empty.
from_pieces : String → List String → Result Anyhow ClientId
from_pieces client_id (id ∷ []) = ok (record { id = id; prefix = pre_registered })
from_pieces client_id (name ∷ id ∷ []) = do
  prefix ← Prefix.try_from name
  ok (record { id = id; prefix = prefix })
from_pieces client_id _ = err (("Error while parsing client id: " <> client_id) ∷ [])

unfoldable pub new : String → Result Anyhow ClientId
unfolding from_pieces splitn_2
new client_id =
    if client_id == ""
    then err ("Client ID cannot be empty." ∷ [])
    else from_pieces client_id (splitn_2 b':' client_id)

-- `Display` and `Serialize` print it too.
unfoldable pub get_full_id : ClientId → String
get_full_id c = Prefix.into_string c.prefix <> ":" <> c.id

-- `parse_did` is `ssi::dids::DIDBuf::from_string`, read back by `into_string`.
unfoldable pub from_did : (String → Result Anyhow String) → String → Result Anyhow ClientId
from_did parse_did did = do
  id ← parse_did did
  ok (record { id = id; prefix = decentralized_identifier })

-- A `Url` is its serialisation.
unfoldable pub from_redirect_uri : String → Result Anyhow ClientId
from_redirect_uri uri = ok (record { id = uri; prefix = redirect_uri })

-- What `Deserialize for ClientId` makes of the pieces of its text.
deserialize_pieces : List String → Result Anyhow ClientId
deserialize_pieces [] = err ("missing client id prefix" ∷ [])
deserialize_pieces (prefix ∷ []) = err ("missing id from the client_id" ∷ [])
deserialize_pieces (prefix ∷ id ∷ _) = new (prefix <> ":" <> id)

-- `Deserialize for ClientId`, behind the deserialisation of the text.
unfoldable pub deserialize : String → Result Anyhow ClientId
unfolding deserialize_pieces new splitn_2
deserialize s = deserialize_pieces (splitn_2 b':' s)
