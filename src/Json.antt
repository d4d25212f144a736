-- ===== src/Json.antt =====
-- `serde_json::Value`, as core/object/mod.rs and its callers use it. A number is its literal text.
-- What serde derives or implements for a type is the function `from_value` of that type, which the
-- code that calls it takes as a parameter.
use openid4vp.Common.{String, Bool, Option, none, some, List, [], ◌∷◌, Eq, derived, String-discrete}

mutual
  pub data Json : Type 0 where
    null : Json
    bool : Bool → Json
    number : String → Json
    string : String → Json
    array : Items → Json
    object : Fields → Json

  pub data Items : Type 0 where
    nil : Items
    cons : Json → Items → Items

  pub data Fields : Type 0 where
    end : Fields
    field : String → Json → Fields → Fields

pub Json-discrete : Discrete Json
Json-discrete = hlevel String-discrete

-- `PartialEq for Value`; the entries of an object stand in the order of a `Map`.
instance abbrev pub json_eq : Eq Json
json_eq = derived Json-discrete

abbrev pub items : Items → List Json
items nil = []
items (cons v vs) = v ∷ items vs

abbrev pub of_items : List Json → Items
of_items [] = nil
of_items (v ∷ vs) = cons v (of_items vs)

abbrev pub entries : Fields → List (String × Json)
entries end = []
entries (field k v fs) = (k, v) ∷ entries fs

abbrev pub of_entries : List (String × Json) → Fields
of_entries [] = end
of_entries ((k, v) ∷ es) = field k v (of_entries es)

-- `Value::as_str`
abbrev pub as_str : Json → Option String
as_str (string s) = some s
as_str _ = none

-- `Value::as_array`
abbrev pub as_array : Json → Option (List Json)
as_array (array vs) = some (items vs)
as_array _ = none
