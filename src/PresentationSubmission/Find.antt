-- ===== src/PresentationSubmission/Find.antt =====
-- core/presentation_submission.rs: finding the inputs of a submission. The vector of inputs is
-- passed on from call to call; where a call fails, what it had added is not kept.
pub mod Correct
pub mod Grown
pub mod Laws
pub mod Sound
use openid4vp.Common.{
  ℕ, String, Bool, true, false, List, [], ◌∷◌, push, length, is_empty as vec_is_empty, Option, none,
  some, Result, ok, err, ◌>>=◌, map_err, map_ok, ok_or, string_eq, if◌then◌else◌,
}
use openid4vp.Common.Dict
use openid4vp.Common.Dict.{Dict}
use openid4vp.Json.{Json}
use openid4vp.CredentialFormat.Designation.{ClaimFormatDesignation, designation_eq}
use openid4vp.CredentialFormat.Payload.{ClaimFormatPayload, ClaimFormatMap}
use openid4vp.InputDescriptor
use openid4vp.InputDescriptor.{JsonPath, Constraints, InputDescriptor}
use openid4vp.PresentationDefinition.{PresentationDefinition, input_descriptors_map}
use openid4vp.PresentationSubmission.Types.{
  DescriptorMap, flat, nesting, PresentationSubmission, DecodedInput, MatchingInputs, Fault, failed,
  SubmissionError, decoding, nesting_unsupported, undefined_input_descriptor, format_mismatch,
  ClaimsDecoder,
}
use openid4vp.PresentationSubmission.Grouping.{group_by_input_descriptor, index_from}

-- The format constraints of the descriptor, or else those of the definition.
unfoldable pub format_constraint :
    ClaimFormatMap
    → ClaimFormatMap
    → ClaimFormatDesignation
    → Result SubmissionError (Option ClaimFormatPayload)
unfolding Dict.lookup
format_constraint descriptor definition format = elim (Dict.lookup format descriptor) [
  | some constraint ↦ ok (some constraint)
  | none ↦
      if vec_is_empty descriptor
      then elim (Dict.lookup format definition) [
        | some constraint ↦ ok (some constraint)
        | none ↦ if vec_is_empty definition then ok none else err (format_mismatch format)
      ]
      else err (format_mismatch format)
]

-- The inputs after a call, with what it returns.
abbrev pub Found : Type 0 → Type 0 → Type 0
Found T A = Result Fault (List (DecodedInput T) × A)

-- `decoded_json.as_deref().ok_or_else(…)`
abbrev pub decoded : ClaimFormatDesignation → Option Json → Result Fault Json
decoded format = ok_or (failed (nesting_unsupported format))

-- The indices of those items that were pushed are collected, in order.
abbrev pub cons_found : Option ℕ → List ℕ → List ℕ
cons_found none indexes = indexes
cons_found (some i) indexes = i ∷ indexes

module _ {T : Type 0} where
  -- The input is pushed, and its index returned.
  unfoldable pub push_input :
      String → ClaimFormatDesignation → T → List ℕ → List (DecodedInput T) → Found T (Option ℕ)
  push_input id format value nested inputs = do
    grouped ← group_by_input_descriptor inputs nested
    ok (
      push inputs (record { descriptor_id = id; format = format; value = value; nested = grouped }),
      some (length inputs),
    )

  unfoldable pub push_unless_skipped :
      String
      → ClaimFormatDesignation
      → T
      → List (DecodedInput T)
      → Option (List ℕ)
      → Found T (Option ℕ)
  push_unless_skipped id format value inputs none = ok (inputs, none)
  push_unless_skipped id format value inputs (some indexes) =
      push_input id format value indexes inputs

  -- The loop over the items of a path.
  unfoldable pub items_loop :
      (Json → List (DecodedInput T) → Found T (Option ℕ))
      → List Json
      → List (DecodedInput T)
      → Found T (List ℕ)
  items_loop step [] inputs = ok (inputs, [])
  items_loop step (item ∷ items) inputs = do
    (inputs₁, found) ← step item inputs
    (inputs₂, indexes) ← items_loop step items inputs₁
    ok (inputs₂, cons_found found indexes)

  -- The indices of the nested inputs; `none` stands for `continue`.
  unfoldable pub find_nested :
      ClaimFormatDesignation
      → Option (Json → List (DecodedInput T) → Found T (List ℕ))
      → Option Json
      → List (DecodedInput T)
      → Found T (Option (List ℕ))
  find_nested format none json inputs = ok (inputs, some [])
  find_nested format (some find) json inputs = do
    value ← decoded format json
    (inputs', nested) ← find value inputs
    ok (inputs', if vec_is_empty nested then none else some nested)

  -- What the body of the loop does with an item that satisfies the constraints, or does not.
  unfoldable pub find_kept :
      String
      → ClaimFormatDesignation
      → Option (Json → List (DecodedInput T) → Found T (List ℕ))
      → T
      → Option Json
      → List (DecodedInput T)
      → Bool
      → Found T (Option ℕ)
  find_kept id format nested value json inputs false = ok (inputs, none)
  find_kept id format nested value json inputs true = do
    (inputs', indexes) ← find_nested format nested json inputs
    push_unless_skipped id format value inputs' indexes

module _ (query : JsonPath → Json → List Json) (is_valid : Json → Json → Bool) where
  -- Do the decoded claims satisfy the constraints? `false` stands for `continue`.
  unfoldable pub check_constraints :
      ClaimFormatDesignation → Constraints → Option Json → Result Fault Bool
  check_constraints format constraints json =
      if InputDescriptor.is_empty constraints
      then ok true
      else map_ok (InputDescriptor.matches query is_valid constraints) (decoded format json)

module _ {T : Type 0} (query : JsonPath → Json → List Json) (is_valid : Json → Json → Bool)
    (decode : ClaimsDecoder T) where
  -- The body of the loop.
  unfoldable pub find_item :
      String
      → ClaimFormatDesignation
      → Constraints
      → Option ClaimFormatPayload
      → Option (Json → List (DecodedInput T) → Found T (List ℕ))
      → Json
      → List (DecodedInput T)
      → Found T (Option ℕ)
  find_item id format constraints constraint nested item inputs = do
    (value, json) ← map_err (λ e. failed (decoding e)) (decode item format constraint)
    keep ← check_constraints query is_valid format constraints json
    find_kept id format nested value json inputs keep

  module _ (definition : ClaimFormatMap) (descriptors : Dict String InputDescriptor) where
    -- One level of `find_inputs_with`.
    unfoldable pub find_level :
        String
        → ClaimFormatDesignation
        → JsonPath
        → Option (Json → List (DecodedInput T) → Found T (List ℕ))
        → Json
        → List (DecodedInput T)
        → Found T (List ℕ)
    find_level id format path nested value inputs = do
      descriptor ← ok_or (failed (undefined_input_descriptor id)) (Dict.lookup id descriptors)
      constraint ← map_err failed (format_constraint descriptor.format definition format)
      items_loop (find_item id format descriptor.constraints constraint nested) (query path value)
          inputs

    unfoldable pub find_inputs_with :
        DescriptorMap → Json → List (DecodedInput T) → Found T (List ℕ)
    unfolding find_level find_item find_kept find_nested push_unless_skipped check_constraints
        push_input items_loop
    find_inputs_with (flat id format path) value inputs =
        find_level id format path none value inputs
    find_inputs_with (nesting id format path nested) value inputs =
        find_level id format path (some (find_inputs_with nested)) value inputs

  -- `DescriptorMap::find_inputs`
  unfoldable pub find_map_inputs :
      DescriptorMap → PresentationDefinition → Json → List (DecodedInput T) → Found T (List ℕ)
  unfolding find_inputs_with input_descriptors_map
  find_map_inputs d definition value inputs =
      find_inputs_with definition.format (input_descriptors_map definition) d value inputs

  unfoldable pub maps_loop :
      List DescriptorMap
      → PresentationDefinition
      → Json
      → List (DecodedInput T)
      → Result Fault (List (DecodedInput T))
  maps_loop [] definition value inputs = ok inputs
  maps_loop (d ∷ ds) definition value inputs = do
    (inputs', _) ← find_map_inputs d definition value inputs
    maps_loop ds definition value inputs'

  -- `PresentationSubmission::find_inputs`
  unfoldable pub find_inputs :
      PresentationSubmission → PresentationDefinition → Json → Result Fault (MatchingInputs T)
  unfolding maps_loop find_map_inputs index_from
  find_inputs submission definition value = do
    inputs ← maps_loop submission.descriptor_map definition value []
    ok (record { inputs = inputs; by_descriptor = index_from 0 [] inputs })
