-- ===== src/InputDescriptor.antt =====
-- core/input_descriptor.rs: input descriptors, their constraints and the query of a field.
-- A JSONPath is its text. A compiled schema is determined by the schema that it was compiled from.
pub mod Laws
use mathlib.Core.Option as O
use openid4vp.Common.{
  String, Bool, true, false, not, ◌&&◌, Option, none, some, List, [], ◌∷◌, map as list_map, any,
  is_empty as vec_is_empty, push as vec_push, if◌then◌else◌, Result, ok, err, ◌>>=◌, Anyhow,
  is_some,
}
use openid4vp.Json.{Json}
use openid4vp.Utils.NonEmpty
use openid4vp.Utils.NonEmpty.{NonEmptyVec}
use openid4vp.CredentialFormat.Designation.{ClaimFormatDesignation}
use openid4vp.CredentialFormat.Payload.{ClaimFormatMap}

abbrev pub GroupId : Type 0
GroupId = String

abbrev pub JsonPath : Type 0
JsonPath = String

pub data Predicate : Type 0 where
  required preferred : Predicate

pub data ConstraintsLimitDisclosure : Type 0 where
  required preferred : ConstraintsLimitDisclosure

pub record CompiledJsonSchema : Type 0 where
  pub raw : Json

pub record ConstraintsField : Type 0 where
  pub id : Option String
  pub name : Option String
  pub purpose : Option String
  pub path : NonEmptyVec JsonPath
  pub optional : Option Bool
  pub filter : Option CompiledJsonSchema
  pub predicate : Option Predicate
  pub intent_to_retain : Bool

pub record Constraints : Type 0 where
  pub fields : List ConstraintsField
  pub limit_disclosure : Option ConstraintsLimitDisclosure

pub record InputDescriptor : Type 0 where
  pub id : String
  pub constraints : Constraints
  pub name : Option String
  pub purpose : Option String
  pub format : ClaimFormatMap
  pub groups : List GroupId

-- `Constraints::default`
abbrev pub no_constraints : Constraints
no_constraints = record { fields = []; limit_disclosure = none }

-- `InputDescriptor::new`
unfoldable pub new_descriptor : String → Constraints → InputDescriptor
new_descriptor id constraints = record {
  id = id;
  constraints = constraints;
  name = none;
  purpose = none;
  format = [];
  groups = [];
}

-- `ConstraintsField::new`
unfoldable pub new_field : JsonPath → ConstraintsField
unfolding NonEmpty.new
new_field path = record {
  id = none;
  name = none;
  purpose = none;
  path = NonEmpty.new path;
  optional = none;
  filter = none;
  predicate = none;
  intent_to_retain = false;
}

unfoldable pub add_path : ConstraintsField → JsonPath → ConstraintsField
unfolding NonEmpty.push
add_path f path = record f { path = NonEmpty.push f.path path }

-- `compile` is `jsonschema::JSONSchema::compile`, of which only the failure is kept.
unfoldable pub set_filter :
    (Json → Result Anyhow (Unit {0})) → ConstraintsField → Json → Result Anyhow ConstraintsField
set_filter compile f schema = do
  _ ← compile schema
  ok (record f { filter = some (record { raw = schema }) })

unfoldable pub add_constraint : Constraints → ConstraintsField → Constraints
add_constraint c field = record c { fields = vec_push c.fields field }

unfoldable pub is_optional : ConstraintsField → Bool
is_optional f = O.get_or f.optional false

-- `ConstraintsField::is_required`
unfoldable pub is_required_field : ConstraintsField → Bool
unfolding is_optional
is_required_field f = not (is_optional f)

-- `Constraints::is_required`
unfoldable pub is_required : Constraints → Bool
unfolding is_required_field
is_required c = any is_required_field c.fields

-- `Constraints::is_empty`
unfoldable pub is_empty : Constraints → Bool
is_empty c = vec_is_empty c.fields

unfoldable pub format_designations : InputDescriptor → List ClaimFormatDesignation
format_designations d = list_map (λ (designation, payload). designation) d.format

pub data FieldQueryResult : Type 0 where
  predicate : Bool → FieldQueryResult
  value : Json → FieldQueryResult

answer : Option Predicate → Json → FieldQueryResult
answer none candidate = value candidate
answer (some _) candidate = predicate true

-- A candidate passes the filter, if there is one.
unfoldable pub passes : (Json → Json → Bool) → Option CompiledJsonSchema → Json → Bool
passes is_valid none candidate = true
passes is_valid (some filter) candidate = is_valid filter.raw candidate

-- `query` selects the values of a JSONPath in a value, and `is_valid` says whether a value is valid
-- against a schema.
module _ (query : JsonPath → Json → List Json) (is_valid : Json → Json → Bool) where
  -- The loop over the candidates of one path.
  query_candidates : ConstraintsField → List Json → Option FieldQueryResult
  query_candidates f [] = none
  query_candidates f (candidate ∷ candidates) =
      let rest = query_candidates f candidates in
      if passes is_valid f.filter candidate then some (answer f.predicate candidate) else rest

  -- The loop over the paths.
  query_paths : ConstraintsField → List JsonPath → Json → Option FieldQueryResult
  query_paths f [] v = none
  query_paths f (path ∷ paths) v =
      let rest = query_paths f paths v in
      if vec_is_empty (query path v)
      then rest
      else elim (query_candidates f (query path v)) [ some r ↦ some r | none ↦ rest ]

  -- `ConstraintsField::query`
  unfoldable pub query_field : ConstraintsField → Json → Option FieldQueryResult
  unfolding query_paths query_candidates passes answer
  query_field f v = query_paths f f.path.vec v

  matches_fields : List ConstraintsField → Json → Bool
  matches_fields [] v = true
  matches_fields (field ∷ fields) v =
      let rest = matches_fields fields v in
      if not (is_some (query_field field v)) && is_required_field field then false else rest

  -- `Constraints::matches`
  unfoldable pub matches : Constraints → Json → Bool
  unfolding matches_fields query_field is_required_field
  matches c v = matches_fields c.fields v
