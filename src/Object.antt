-- ===== src/Object.antt =====
-- core/object/mod.rs: an untyped JSON object, from which typed parameters are parsed.
pub mod Laws
use mathlib.Core.Option as O
use openid4vp.Common.{
  String, ◌<>◌, Option, none, some, List, [], ◌∷◌, Result, ok, err, Anyhow, ◌>>=◌, context,
  option_context, transpose, string_eq,
}
use openid4vp.Common.Dict
use openid4vp.Common.Dict.{Dict}
use openid4vp.Json.{Json, string, object, of_entries}

-- `UntypedObject(pub(crate) Map<String, Json>)`
pub record UntypedObject : Type 0 where
  pub map : Dict String Json

-- The trait `TypedParameter: TryFrom<Json> + TryInto<Json>`.
pub record TypedParameter {ℓ} (T : Type ℓ) : Type ℓ where
  pub key : String
  pub try_from : Json → Result Anyhow T
  pub try_into : T → Result Anyhow Json

module _ {ℓ} {T : Type ℓ} where
  unfoldable pub get : TypedParameter T → UntypedObject → Option (Result Anyhow T)
  unfolding Dict.lookup
  get p o = O.map p.try_from (Dict.lookup p.key o.map)

  -- `default` is `T::default()`.
  unfoldable pub get_or_default : TypedParameter T → T → UntypedObject → Result Anyhow T
  unfolding Dict.lookup
  get_or_default p default o = do
    found ← transpose (O.map p.try_from (Dict.lookup p.key o.map))
    ok (O.get_or found default)

  unfoldable pub remove :
      TypedParameter T → UntypedObject → UntypedObject × Option (Result Anyhow T)
  unfolding Dict.lookup Dict.erase
  remove p o = (record { map = Dict.erase p.key o.map }, O.map p.try_from (Dict.lookup p.key o.map))

  -- The object after the call, and the entry that was there before.
  unfoldable pub insert :
      TypedParameter T → T → UntypedObject → UntypedObject × Option (Result Anyhow T)
  unfolding Dict.lookup Dict.insert
  insert p t o = elim (p.try_into t) [
    | err _ ↦ (o, some (err ("failed to parse typed parameter" ∷ [])))
    | ok value ↦
        (record { map = Dict.insert p.key value o.map }, O.map p.try_from (Dict.lookup p.key o.map))
  ]

  -- `ParsingErrorContext for Option<Result<T>>`
  unfoldable pub parsing_error : TypedParameter T → Option (Result Anyhow T) → Result Anyhow T
  parsing_error p found = do
    result ← option_context ("'" <> p.key <> "' is missing") found
    context ("'" <> p.key <> "' could not be parsed") result

  -- `ParsingErrorContext for Result<T>`
  unfoldable pub result_parsing_error : TypedParameter T → Result Anyhow T → Result Anyhow T
  result_parsing_error p = context ("'" <> p.key <> "' could not be parsed")

-- The body of the closure in `flatten_for_form`; `to_string` is `serde_json::to_string`.
flatten_value : (Json → Result Anyhow String) → Json → Result Anyhow String
flatten_value to_string (string s) = ok s
flatten_value to_string v = to_string v

flatten_entries :
    (Json → Result Anyhow String) → Dict String Json → Result Anyhow (Dict String String)
flatten_entries to_string [] = ok []
flatten_entries to_string ((k, v) ∷ d) = do
  s ← flatten_value to_string v
  rest ← flatten_entries to_string d
  ok ((k, s) ∷ rest)

unfoldable pub flatten_for_form :
    (Json → Result Anyhow String) → UntypedObject → Result Anyhow (Dict String String)
unfolding flatten_value flatten_entries Dict.collect Dict.insert
flatten_for_form to_string o = do flat ← flatten_entries to_string o.map; ok (Dict.collect [] flat)

-- `From<UntypedObject> for Json`
unfoldable pub into_json : UntypedObject → Json
into_json o = object (of_entries o.map)
