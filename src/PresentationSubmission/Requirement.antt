-- ===== src/PresentationSubmission/Requirement.antt =====
-- core/presentation_definition.rs: `SubmissionRequirement::validate`, and
-- core/presentation_submission.rs: `MatchingInputs::validate`, `find_and_validate_inputs`.
pub mod Laws
pub mod Satisfied
use openid4vp.Common.{
  ℕ, suc, zero, ltb, String, Bool, true, false, not, List, [], ◌∷◌, is_empty as vec_is_empty,
  Option, none, some, Result, ok, err, ◌>>=◌, ◌>>◌, map_err, string_eq, nat_eq, contains, ◌==◌,
  if◌then◌else◌,
}
use openid4vp.Common.Dict
use openid4vp.Common.Dict.{Dict}
use openid4vp.Json.{Json}
use openid4vp.InputDescriptor.{GroupId, JsonPath, InputDescriptor}
use openid4vp.PresentationDefinition.{
  PresentationDefinition, SubmissionRequirement, all_of, pick, from, from_nested, Requirements,
  done, and,
}
use openid4vp.PresentationSubmission.Types.{
  PresentationSubmission, DecodedInput, MatchingInputs, Fault, failed, validation,
  SubmissionValidationError, missing_required_input, selection_too_small, selection_too_large,
  selection_size_mismatch, ClaimsDecoder,
}
use openid4vp.PresentationSubmission.Find.{find_inputs}

-- The fields `count`, `min` and `max` of a `SubmissionRequirementPick`.
pub record Pick : Type 0 where
  pub count : Option ℕ
  pub min : Option ℕ
  pub max : Option ℕ

-- The identifiers of the descriptors in the group, before they are collected into a set.
unfoldable pub group_ids : GroupId → List InputDescriptor → List String
group_ids group [] = []
group_ids group (d ∷ ds) =
    let rest = group_ids group ds in if contains d.groups group then d.id ∷ rest else rest

-- `iter().filter(…).count()`
unfoldable pub count_if {ℓ} : {A : Type ℓ} → (A → Bool) → List A → ℕ
count_if p [] = 0
count_if p (x ∷ xs) = let rest = count_if p xs in if p x then suc rest else rest

unfoldable pub check_min : GroupId → ℕ → Option ℕ → Result SubmissionValidationError (Unit {0})
check_min group n none = ok tt
check_min group n (some min) = if ltb n min then err (selection_too_small group min n) else ok tt

unfoldable pub check_max : GroupId → ℕ → Option ℕ → Result SubmissionValidationError (Unit {0})
check_max group n none = ok tt
check_max group n (some max) = if ltb max n then err (selection_too_large group max n) else ok tt

unfoldable pub check_count : GroupId → ℕ → Option ℕ → Result SubmissionValidationError (Unit {0})
check_count group n none = ok tt
check_count group n (some count) =
    if n == count then ok tt else err (selection_size_mismatch group count n)

-- Every identifier must have an entry in the index of the inputs.
unfoldable pub missing_loop :
    List String → Dict String (List ℕ) → Result SubmissionValidationError (Unit {0})
missing_loop [] by_descriptor = ok tt
missing_loop (id ∷ ids) by_descriptor =
    let rest = missing_loop ids by_descriptor in
    if Dict.contains_key id by_descriptor then rest else err (missing_required_input id)

-- `is_none_or(|i| i.is_empty())`
abbrev pub none_or_empty : Option (List ℕ) → Bool
none_or_empty none = true
none_or_empty (some indexes) = vec_is_empty indexes

-- The loop over the descriptors, where the definition states no requirements.
unfoldable pub default_loop :
    List InputDescriptor → Dict String (List ℕ) → Result SubmissionValidationError (Unit {0})
default_loop [] by_descriptor = ok tt
default_loop (d ∷ ds) by_descriptor =
    let rest = default_loop ds by_descriptor in
    if none_or_empty (Dict.lookup d.id by_descriptor)
    then err (missing_required_input d.id)
    else rest

-- `hash_set` is `collect::<HashSet<_>>()`: the items of the set in the order of its iteration.
module _ {T : Type 0} (hash_set : List String → List String) where
  unfoldable pub validate_group :
      GroupId
      → PresentationDefinition
      → MatchingInputs T
      → Option Pick
      → Result SubmissionValidationError (Unit {0})
  unfolding group_ids count_if check_min check_max check_count missing_loop
  validate_group group definition m none =
      missing_loop (hash_set (group_ids group definition.input_descriptors)) m.by_descriptor
  validate_group group definition m (some p) =
      let grouped = hash_set (group_ids group definition.input_descriptors) in
      let n = count_if (λ input. contains grouped input.descriptor_id) m.inputs in
      check_min group n p.min >> (check_max group n p.max >> check_count group n p.count)

  -- `validate` of one requirement, and of the list of a nested one in turn.
  unfoldable mutual
    unfolding validate_group

    pub validate :
        SubmissionRequirement
        → PresentationDefinition
        → MatchingInputs T
        → Result SubmissionValidationError (Unit {0})
    validate (all_of (from group base)) definition m = validate_group group definition m none
    validate (all_of (from_nested requirements base)) definition m =
        validate_nested requirements definition m
    validate (pick (from group base) count min max) definition m =
        validate_group group definition m (some (record { count = count; min = min; max = max }))
    validate (pick (from_nested requirements base) count min max) definition m =
        validate_nested requirements definition m

    pub validate_nested :
        Requirements
        → PresentationDefinition
        → MatchingInputs T
        → Result SubmissionValidationError (Unit {0})
    validate_nested done definition m = ok tt
    validate_nested (and r rs) definition m =
        validate r definition m >> validate_nested rs definition m

  unfoldable pub validate_all :
      List SubmissionRequirement
      → PresentationDefinition
      → MatchingInputs T
      → Result SubmissionValidationError (Unit {0})
  unfolding validate
  validate_all [] definition m = ok tt
  validate_all (r ∷ rs) definition m = validate r definition m >> validate_all rs definition m

  -- `MatchingInputs::validate`
  unfoldable pub validate_inputs :
      MatchingInputs T → PresentationDefinition → Result SubmissionValidationError (Unit {0})
  unfolding validate_all default_loop Dict.lookup
  validate_inputs m definition = elim definition.submission_requirements [
    | some requirements ↦ validate_all requirements definition m
    | none ↦ default_loop definition.input_descriptors m.by_descriptor
  ]

  unfoldable pub find_and_validate_inputs :
      (JsonPath → Json → List Json)
      → (Json → Json → Bool)
      → ClaimsDecoder T
      → PresentationSubmission
      → PresentationDefinition
      → Json
      → Result Fault (MatchingInputs T)
  unfolding validate_inputs find_inputs
  find_and_validate_inputs query is_valid decode submission definition value = do
    matches ← find_inputs query is_valid decode submission definition value
    _ ← map_err (λ e. failed (validation e)) (validate_inputs matches definition)
    ok matches
