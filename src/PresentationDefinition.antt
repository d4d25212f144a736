-- ===== src/PresentationDefinition.antt =====
-- core/presentation_definition.rs: the definition, its setters and `is_credential_match`.
pub mod Laws
use openid4vp.Common.{
  ℕ, String, Bool, true, false, not, ◌&&◌, ◌||◌, Option, none, some, List, [], ◌∷◌, ◌++◌, any, all,
  push, if◌then◌else◌, string_eq,
}
use openid4vp.Common.Dict
use openid4vp.Common.Dict.{Dict}
use openid4vp.Json.{Json}
use openid4vp.CredentialFormat.Designation.{ClaimFormatDesignation, designation_eq}
use openid4vp.CredentialFormat.Payload.{ClaimFormatPayload, ClaimFormatMap}
use openid4vp.InputDescriptor.{
  GroupId, JsonPath, InputDescriptor, ConstraintsField, CompiledJsonSchema, is_required_field,
}

pub record SubmissionRequirementObject : Type 0 where
  pub name : Option String
  pub purpose : Option String
  pub property_set : Option (Dict String Json)

-- `SubmissionRequirement`, `SubmissionRequirementBase` and the list of a nested requirement. The
-- fields `count`, `min` and `max` of a `SubmissionRequirementPick` stand in the constructor.
mutual
  pub data SubmissionRequirement : Type 0 where
    all_of : SubmissionRequirementBase → SubmissionRequirement
    pick : SubmissionRequirementBase → (count min max : Option ℕ) → SubmissionRequirement

  pub data SubmissionRequirementBase : Type 0 where
    from : GroupId → SubmissionRequirementObject → SubmissionRequirementBase
    from_nested : Requirements → SubmissionRequirementObject → SubmissionRequirementBase

  pub data Requirements : Type 0 where
    done : Requirements
    and : SubmissionRequirement → Requirements → Requirements

pub record PresentationDefinition : Type 0 where
  pub id : String
  pub input_descriptors : List InputDescriptor
  pub submission_requirements : Option (List SubmissionRequirement)
  pub name : Option String
  pub purpose : Option String
  pub format : ClaimFormatMap

unfoldable pub new : String → InputDescriptor → PresentationDefinition
new id input_descriptor = record {
  id = id;
  input_descriptors = input_descriptor ∷ [];
  submission_requirements = none;
  name = none;
  purpose = none;
  format = [];
}

unfoldable pub add_input_descriptor :
    PresentationDefinition → InputDescriptor → PresentationDefinition
add_input_descriptor d input_descriptor = record d {
  input_descriptors = push d.input_descriptors input_descriptor;
}

-- The entries of `input_descriptors_map`, in the order of the list.
unfoldable pub id_entries : List InputDescriptor → List (String × InputDescriptor)
id_entries [] = []
id_entries (d ∷ ds) = (d.id, d) ∷ id_entries ds

unfoldable pub input_descriptors_map : PresentationDefinition → Dict String InputDescriptor
unfolding id_entries Dict.collect Dict.insert
input_descriptors_map d = Dict.collect [] (id_entries d.input_descriptors)

unfoldable pub add_submission_requirement :
    PresentationDefinition → SubmissionRequirement → PresentationDefinition
add_submission_requirement d requirement = record d {
  submission_requirements = elim d.submission_requirements [
    | none ↦ some (requirement ∷ [])
    | some requirements ↦ some (push requirements requirement)
  ];
}

unfoldable pub add_format :
    PresentationDefinition → ClaimFormatDesignation → ClaimFormatPayload → PresentationDefinition
unfolding Dict.insert
add_format d key value = record d { format = Dict.insert key value d.format }

unfoldable pub contains_format : PresentationDefinition → ClaimFormatDesignation → Bool
unfolding Dict.contains_key
contains_format d format =
    if any (λ descriptor. Dict.contains_key format descriptor.format) d.input_descriptors
    then true
    else Dict.contains_key format d.format

module _ (query : JsonPath → Json → List Json) (is_valid : Json → Json → Bool) where
  -- Some value at some path is valid: `flat_map(|path| path.query(credential)).any(…)`.
  path_valid : Json → List JsonPath → Json → Bool
  path_valid schema [] credential = false
  path_valid schema (path ∷ paths) credential =
      any (is_valid schema) (query path credential) || path_valid schema paths credential

  field_match : Option CompiledJsonSchema → List JsonPath → Json → Bool
  field_match none paths credential = true
  field_match (some filter) paths credential = path_valid filter.raw paths credential

  -- The required fields of one descriptor; an optional one is skipped.
  fields_match : List ConstraintsField → Json → Bool
  fields_match fields credential =
      all
        (λ field.
          not (is_required_field field) || field_match field.filter field.path.vec credential)
        fields

  unfoldable pub is_credential_match : PresentationDefinition → Json → Bool
  unfolding fields_match field_match path_valid is_required_field
  is_credential_match d credential =
      all (λ descriptor. fields_match descriptor.constraints.fields credential) d.input_descriptors
