-- ===== src/Tests/Submission.antt =====
-- A submission of one presentation that holds a credential, and its requirements.
use mathlib.Core.Option as O
use openid4vp.Common.{
  String, Bool, true, false, List, [], ◌∷◌, none, some, ok, err, string_eq, nat_eq, contains, ◌==◌,
  ◌≡◌, ◌≢◌, ◌↔◌, refl, All,
}
use openid4vp.Common.Dict
use openid4vp.Json.{Json, string, object, field, end, entries}
use openid4vp.CredentialFormat.Designation.{jwt, jwt_vc, ClaimFormatDesignation-discrete}
use openid4vp.CredentialFormat.Payload.{alg}
use openid4vp.InputDescriptor.{
  JsonPath, InputDescriptor, ConstraintsField, Constraints, query_field, matches, is_empty,
}
use openid4vp.InputDescriptor.Laws.{Selects, Meets, query_field_iff, matches_iff}
use openid4vp.PresentationDefinition.{
  PresentationDefinition, pick, all_of, from, is_credential_match,
}
use openid4vp.PresentationDefinition.Laws.{IsAnswered, is_credential_match_iff}
use openid4vp.PresentationSubmission.Types.{
  DescriptorMap, flat, nesting, PresentationSubmission, DecodedInput, MatchingInputs, panicked,
  ClaimsDecoder,
}
use openid4vp.PresentationSubmission.Grouping.{group_by_input_descriptor}
use openid4vp.PresentationSubmission.Grouping.Laws.{Points}
use openid4vp.PresentationSubmission.Find.{format_constraint, find_inputs, find_map_inputs}
use openid4vp.PresentationSubmission.Find.Grown.{Grown, IsWellFounded}
use openid4vp.PresentationSubmission.Find.Sound.{FoundAll}
use openid4vp.PresentationSubmission.Find.Correct.{
  IsSound, find_inputs-no_panic, find_inputs-IsSound, find_inputs-IsWellFounded,
  find_inputs-by_descriptor_iff, find_map_inputs-FoundAll,
}
use openid4vp.PresentationSubmission.Requirement.{find_and_validate_inputs}
use openid4vp.PresentationSubmission.Requirement.Satisfied.{AllSatisfied}
use openid4vp.PresentationSubmission.Requirement.Laws.{find_and_validate_inputs_iff}

-- The member of an object that the path names.
member : JsonPath → Json → List Json
unfolding Dict.lookup
member path (object fields) = elim (Dict.lookup path (entries fields)) [
  | none ↦ []
  | some v ↦ v ∷ []
]
member path v = []

-- A filter accepts the value that is equal to it.
equals : Json → Json → Bool
equals schema (string s) = elim schema [ string t ↦ s == t | _ ↦ false ]
equals schema v = false

-- Every item is decoded to itself.
keep : ClaimsDecoder Json
keep item format constraint = ok (item, some item)

abbrev a_field : String → ConstraintsField
a_field path = record {
  id = none;
  name = none;
  purpose = none;
  path = record { vec = path ∷ [] };
  optional = none;
  filter = some (record { raw = string "Ada" });
  predicate = none;
  intent_to_retain = false;
}

abbrev descriptor : String → List ConstraintsField → InputDescriptor
descriptor id fields = record {
  id = id;
  constraints = record { fields = fields; limit_disclosure = none };
  name = none;
  purpose = none;
  format = [];
  groups = "all" ∷ [];
}

abbrev definition : PresentationDefinition
definition = record {
  id = "query";
  input_descriptors = descriptor "presentation" [] ∷ descriptor "card" (a_field "name" ∷ []) ∷ [];
  submission_requirements = some (
      pick (from "all" (record { name = none; purpose = none; property_set = none })) (some 2) none
        none
      ∷ all_of (from "all" (record { name = none; purpose = none; property_set = none }))
      ∷ []);
  name = none;
  purpose = none;
  format = (jwt, alg ("ES256" ∷ [])) ∷ (jwt_vc, alg ("ES256" ∷ [])) ∷ [];
}

abbrev credential : Json
credential = object (field "name" (string "Ada") end)

abbrev presentation : Json
presentation = object (field "vc" credential end)

abbrev response : Json
response = object (field "vp" presentation end)

abbrev card_in_presentation : DescriptorMap
card_in_presentation = nesting "presentation" jwt "vp" (flat "card" jwt_vc "vc")

abbrev submission : PresentationSubmission
submission = record {
  id = "1";
  definition_id = "query";
  descriptor_map = card_in_presentation ∷ [];
}

abbrev inputs : List (DecodedInput Json)
inputs =
    (record { descriptor_id = "card"; format = jwt_vc; value = credential; nested = [] })
    ∷ (record {
      descriptor_id = "presentation";
      format = jwt;
      value = presentation;
      nested = ("card", 0 ∷ []) ∷ [];
    })
    ∷ []

abbrev matching : MatchingInputs Json
matching = record {
  inputs = inputs;
  by_descriptor = ("card", 0 ∷ []) ∷ ("presentation", 1 ∷ []) ∷ [];
}

found : find_inputs member equals keep submission definition response ≡ ok matching
unfolding member equals keep find_inputs matches format_constraint ClaimFormatDesignation-discrete
    is_empty group_by_input_descriptor
found = refl

found_map :
    find_map_inputs member equals keep card_in_presentation definition response []
    ≡ ok (inputs, 1 ∷ [])
unfolding member equals keep find_map_inputs matches format_constraint
    ClaimFormatDesignation-discrete is_empty group_by_input_descriptor
found_map = refl

find_inputs-no_panic_example :
    find_inputs member equals keep submission definition response ≢ err panicked
find_inputs-no_panic_example =
    find_inputs-no_panic member equals keep definition submission response

find_inputs-IsSound_example : All (IsSound member equals keep definition) inputs
find_inputs-IsSound_example =
    find_inputs-IsSound member equals keep definition submission response matching found

find_inputs-IsWellFounded_example : IsWellFounded inputs
find_inputs-IsWellFounded_example =
    find_inputs-IsWellFounded member equals keep definition submission response matching found

find_inputs-by_descriptor_iff_example :
    (contains (O.get_or (Dict.lookup "card" matching.by_descriptor) []) 0 ≡ true)
    ↔ Points inputs 0 "card"
find_inputs-by_descriptor_iff_example =
    find_inputs-by_descriptor_iff member equals keep definition submission response matching found 0
      "card"

find_map_inputs-FoundAll_example : Grown [] inputs × FoundAll "presentation" inputs (1 ∷ [])
find_map_inputs-FoundAll_example =
    find_map_inputs-FoundAll member equals keep definition card_in_presentation response [] inputs
      (1 ∷ []) tt (λ i c h. cc) found_map

-- A set that keeps the order and the repetitions of its list.
abbrev as_list : List String → List String
as_list xs = xs

find_and_validate_inputs_iff_example :
    (find_and_validate_inputs as_list member equals keep submission definition response
      ≡ ok matching)
    ↔ ((find_inputs member equals keep submission definition response ≡ ok matching)
        × AllSatisfied definition inputs)
find_and_validate_inputs_iff_example =
    find_and_validate_inputs_iff as_list (λ xs x. refl) member equals keep submission definition
      response matching

query_field_iff_example :
    (query_field member equals (a_field "name") credential ≢ none)
    ↔ Selects member equals (a_field "name") credential
query_field_iff_example = query_field_iff member equals (a_field "name") credential

abbrev constraints : Constraints
constraints = record { fields = a_field "name" ∷ []; limit_disclosure = none }

matches_iff_example :
    (matches member equals constraints credential ≡ true)
    ↔ Meets member equals (a_field "name" ∷ []) credential
matches_iff_example = matches_iff member equals constraints credential

is_credential_match_iff_example :
    (is_credential_match member equals definition credential ≡ true)
    ↔ All
        (λ d. All (IsAnswered member equals credential) d.constraints.fields)
        definition.input_descriptors
is_credential_match_iff_example = is_credential_match_iff member equals definition credential
