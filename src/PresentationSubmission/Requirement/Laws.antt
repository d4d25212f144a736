-- ===== src/PresentationSubmission/Requirement/Laws.antt =====
-- Validation of inputs against submission requirements.
use openid4vp.Common.{
  All, String, Bool, true, not, List, [], ◌∷◌, none, some, ok, >>=-eq-ok, >>-ok_iff, string_eq,
  nat_eq, contains, ◌≡◌, ◌↔◌, refl, inl, inr, Bool-cases, Option-cases,
}
use openid4vp.Common.Dict
use openid4vp.Common.Dict.{Dict}
use openid4vp.Json.{Json}
use openid4vp.InputDescriptor.{GroupId, JsonPath, InputDescriptor}
use openid4vp.PresentationDefinition.{
  PresentationDefinition, SubmissionRequirement, all_of, pick, from, from_nested, Requirements,
  done, and,
}
use openid4vp.PresentationSubmission.Types.{
  PresentationSubmission, MatchingInputs, failed, validation, ClaimsDecoder,
}
use openid4vp.PresentationSubmission.Grouping.{index_from}
use openid4vp.PresentationSubmission.Find.{find_inputs}
use openid4vp.PresentationSubmission.Find.Correct.{find_inputs-indexed}
use openid4vp.PresentationSubmission.Requirement.Satisfied.{
  in_group, Within, has_input, Satisfied, SatisfiedNested, AllSatisfied, checked, check_min_iff,
  check_max_iff, check_count_iff, contains-group_ids, count_if-ap, missing_loop_iff,
  contains_key-index_from, none_or_empty-lookup,
}
use openid4vp.PresentationSubmission.Requirement.{
  Pick, group_ids, count_if, check_min, check_max, default_loop, none_or_empty, validate_group,
  validate, validate_nested, validate_all, validate_inputs, find_and_validate_inputs,
}

module _ {T : Type 0} where
  module _ (hash_set : List String → List String)
      (set_contains : (xs : List String) (x : String) → contains (hash_set xs) x ≡ contains xs x)
      (definition : PresentationDefinition) (m : MatchingInputs T)
      (indexed : m.by_descriptor ≡ index_from 0 [] m.inputs) where
    contains-grouped :
        (g : GroupId) (id : String)
        → contains (hash_set (group_ids g definition.input_descriptors)) id
          ≡ in_group g definition id
    contains-grouped g id =
        rw (set_contains (group_ids g definition.input_descriptors) id)
          (contains-group_ids g definition.input_descriptors id)

    validate_group-none_iff :
        (g : GroupId)
        → (validate_group hash_set g definition m none ≡ ok tt)
          ↔ ((id : String) → in_group g definition id ≡ true → has_input m.inputs id ≡ true)
    unfolding validate_group
    validate_group-none_iff g =
        let e =
          missing_loop_iff (hash_set (group_ids g definition.input_descriptors)) m.by_descriptor in
        (
          λ h id k.
              rw (indexed, contains_key-index_from m.inputs id) at
                (e.0 h id (rw (contains-grouped g id) k)),
          λ h. e.1 (λ id k.
              rw (indexed, contains_key-index_from m.inputs id)
                (h id (rw (contains-grouped g id) at k))),
        )

    validate_group-some_iff :
        (g : GroupId) (p : Pick)
        → (validate_group hash_set g definition m (some p) ≡ ok tt)
          ↔ Within p (count_if (λ c. in_group g definition c.descriptor_id) m.inputs)
    unfolding validate_group
    validate_group-some_iff g p =
        rw
          (count_if-ap _ (λ c. in_group g definition c.descriptor_id) m.inputs
            (λ c. contains-grouped g c.descriptor_id))
          (let n = count_if (λ c. in_group g definition c.descriptor_id) m.inputs in
            (
              λ h.
                  let (a, r) = (>>-ok_iff (check_min g n p.min) _).0 h in
                  let (b, c) = (>>-ok_iff (check_max g n p.max) _).0 r in
                  (
                    (check_min_iff g n p.min).0 a,
                    (check_max_iff g n p.max).0 b,
                    (check_count_iff g n p.count).0 c,
                  ),
              λ (a, b, c). (>>-ok_iff (check_min g n p.min) _).1 (
                (check_min_iff g n p.min).1 a,
                (>>-ok_iff (check_max g n p.max) _).1
                    ((check_max_iff g n p.max).1 b, (check_count_iff g n p.count).1 c),
              ),
            ))

    mutual
      unfolding validate Satisfied

      validate_lem :
          (r : SubmissionRequirement)
          → (validate hash_set r definition m ≡ ok tt) ↔ Satisfied definition m.inputs r
      validate_lem (all_of (from g b)) = validate_group-none_iff g
      validate_lem (all_of (from_nested rs b)) = validate_nested_lem rs
      validate_lem (pick (from g b) count min max) =
          validate_group-some_iff g (record { count = count; min = min; max = max })
      validate_lem (pick (from_nested rs b) count min max) = validate_nested_lem rs

      validate_nested_lem :
          (rs : Requirements)
          → (validate_nested hash_set rs definition m ≡ ok tt)
            ↔ SatisfiedNested definition m.inputs rs
      validate_nested_lem done = (λ _. tt, λ _. refl)
      validate_nested_lem (and r rs) = (
        λ h.
            let (a, b) =
              (>>-ok_iff (validate hash_set r definition m)
                  (validate_nested hash_set rs definition m)).0
                h in
            ((validate_lem r).0 a, (validate_nested_lem rs).0 b),
        λ (a, b).
            (>>-ok_iff (validate hash_set r definition m)
                (validate_nested hash_set rs definition m)).1
              ((validate_lem r).1 a, (validate_nested_lem rs).1 b),
      )

    validate_all_lem :
        (rs : List SubmissionRequirement)
        → (validate_all hash_set rs definition m ≡ ok tt) ↔ All (Satisfied definition m.inputs) rs
    unfolding validate_all
    validate_all_lem [] = (λ _. tt, λ _. refl)
    validate_all_lem (r ∷ rs) = (
      λ h.
          let (a, b) =
            (>>-ok_iff (validate hash_set r definition m) (validate_all hash_set rs definition m)).0
              h in
          ((validate_lem r).0 a, (validate_all_lem rs).0 b),
      λ (a, b).
          (>>-ok_iff (validate hash_set r definition m) (validate_all hash_set rs definition m)).1
            ((validate_lem r).1 a, (validate_all_lem rs).1 b),
    )

    default_loop_lem :
        (ds : List InputDescriptor)
        → (default_loop ds m.by_descriptor ≡ ok tt) ↔ All (λ d. has_input m.inputs d.id ≡ true) ds
    unfolding default_loop
    default_loop_lem [] = (λ _. tt, λ _. refl)
    default_loop_lem (d ∷ ds) =
        let e : none_or_empty (Dict.lookup d.id m.by_descriptor) ≡ not (has_input m.inputs d.id) =
          rw indexed (none_or_empty-lookup m.inputs d.id) in
        let (forth, back) = default_loop_lem ds in
        elim (Bool-cases (has_input m.inputs d.id)) [
          | inl has ↦ rw (default_loop, e, has) (λ h. (refl, forth h), λ (_, hs). back hs)
          | inr lacks ↦ rw (default_loop, e, lacks) (λ h. cc, λ (h, _). cc)
        ]

    -- Validation of indexed inputs accepts exactly when each requirement of the definition is
    -- satisfied, or, where the definition states none, when each of its descriptors has an input.
    validate_inputs_lem :
        (validate_inputs hash_set m definition ≡ ok tt) ↔ AllSatisfied definition m.inputs
    unfolding validate_inputs AllSatisfied
    validate_inputs_lem = elim (Option-cases definition.submission_requirements) [
      | inl e ↦
          rw (validate_inputs, AllSatisfied, e) (default_loop_lem definition.input_descriptors)
      | inr (rs, e) ↦ rw (validate_inputs, AllSatisfied, e) (validate_all_lem rs)
    ]

module _ {T : Type 0} (hash_set : List String → List String)
    (set_contains : (xs : List String) (x : String) → contains (hash_set xs) x ≡ contains xs x)
    (query : JsonPath → Json → List Json) (is_valid : Json → Json → Bool)
    (decode : ClaimsDecoder T) where
  -- The set of identifiers has the items that were collected, in any order. Then
  -- `find_and_validate_inputs` returns some inputs exactly when they are the inputs that
  -- `find_inputs` finds, and they satisfy every requirement of the definition, or, where it
  -- states none, hold an input for each of its descriptors.
  pub find_and_validate_inputs_iff :
      (submission : PresentationSubmission) (definition : PresentationDefinition) (value : Json)
      (m : MatchingInputs T)
      → (find_and_validate_inputs hash_set query is_valid decode submission definition value ≡ ok m)
        ↔ ((find_inputs query is_valid decode submission definition value ≡ ok m)
            × AllSatisfied definition m.inputs)
  unfolding find_and_validate_inputs
  find_and_validate_inputs_iff submission definition value m = (
    λ h.
        let (found, e, rest) =
          >>=-eq-ok (find_inputs query is_valid decode submission definition value) _ h in
        let (accepts, same) =
          checked (λ e. failed (validation e)) (validate_inputs hash_set found definition) rest in
        let f = rw same at e in (f, (accepts_iff m f).0 (rw same at accepts)),
    λ (e, s). rw (e, (accepts_iff m e).1 s) refl,
  )
    where
      accepts_iff :
          (m : MatchingInputs T)
          → find_inputs query is_valid decode submission definition value ≡ ok m
          → (validate_inputs hash_set m definition ≡ ok tt) ↔ AllSatisfied definition m.inputs
      accepts_iff m e =
          validate_inputs_lem hash_set set_contains definition m
            (find_inputs-indexed query is_valid decode definition submission value m e)
