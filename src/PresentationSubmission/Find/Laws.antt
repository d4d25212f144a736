-- ===== src/PresentationSubmission/Find/Laws.antt =====
-- The steps of the search for inputs, from one item to `find_inputs_with`.
use openid4vp.Common.{
  ℕ, String, Bool, true, false, List, [], ◌∷◌, length, Option, none, some, ok, map_err, ok_or,
  string_eq, ◌≡◌, refl, inl, inr, All-mono, All-append, Bool-cases,
}
use openid4vp.Common.Dict
use openid4vp.Common.Dict.{Dict}
use openid4vp.Json.{Json}
use openid4vp.CredentialFormat.Designation.{ClaimFormatDesignation, designation_eq}
use openid4vp.CredentialFormat.Payload.{ClaimFormatPayload, ClaimFormatMap}
use openid4vp.InputDescriptor
use openid4vp.InputDescriptor.{JsonPath, Constraints, InputDescriptor}
use openid4vp.PresentationSubmission.Types.{
  DescriptorMap, map_id, flat, nesting, DecodedInput, failed, ClaimsDecoder, decoding,
  undefined_input_descriptor,
}
use openid4vp.PresentationSubmission.Grouping.{group_by_input_descriptor, group_from}
use openid4vp.PresentationSubmission.Grouping.Valid.{
  get_elem?-push_self, get_elem?-lt, group_from-IsGrouped,
}
use openid4vp.PresentationSubmission.Find.Grown.{
  Post, Post-bind, Post-failed, Post-ok_or, Grown-refl, Grown-trans, push-IsWellFounded, push-Grown,
}
use openid4vp.PresentationSubmission.Find.Sound.{
  format_constraint-Allows, FoundAt, FoundAll, FoundNested, FoundNested-if, cons_found-FoundAll,
  Satisfies-check, Sound, Inv, After, IsNested, After-Post,
}
use openid4vp.PresentationSubmission.Find.{
  format_constraint, Found, push_input, items_loop, find_nested, find_kept, check_constraints,
  find_item, find_level, push_unless_skipped, find_inputs_with,
}

module _ {T : Type 0} (query : JsonPath → Json → List Json) (is_valid : Json → Json → Bool)
    (decode : ClaimsDecoder T) (definition : ClaimFormatMap)
    (descriptors : Dict String InputDescriptor) where
  abbrev Kept : DecodedInput T → Type 0
  Kept = Sound query is_valid decode definition descriptors

  abbrev Held : List (DecodedInput T) → Type 0
  Held = Inv query is_valid decode definition descriptors

  abbrev Ends :
      {A : Type 0} (P : List (DecodedInput T) → A → Type 0)
      → List (DecodedInput T)
      → List (DecodedInput T) × A
      → Type 0
  Ends P inputs r = After query is_valid decode definition descriptors P inputs r

  abbrev Nested : String → Option (Json → List (DecodedInput T) → Found T (List ℕ)) → Type 0
  Nested = IsNested query is_valid decode definition descriptors

  push_input-Post :
      (c : DecodedInput T) (key : String) (js : List ℕ) (inputs : List (DecodedInput T))
      → Kept c
      → Held inputs
      → FoundAll key inputs js
      → Post
          (Ends (FoundAt c.descriptor_id) inputs)
          (push_input c.descriptor_id c.format c.value js inputs)
  unfolding push_input group_by_input_descriptor
  push_input-Post c key js inputs s (sounds, wf) ps =
      let (g, e, h) =
        group_from-IsGrouped (length inputs) inputs [] js key tt
          (All-mono js (λ j p. (get_elem?-lt inputs j p.1, p)) ps) in
      rw (group_from, e)
        (record {
          grows = push-Grown inputs (record c { nested = g });
          sound = All-append Kept inputs (record c { nested = g } ∷ []) sounds (
            (record {
              descriptor = s.descriptor;
              defined = s.defined;
              constraint = s.constraint;
              allowed = s.allowed;
              item = s.item;
              json = s.json;
              decodes = s.decodes;
              satisfied = s.satisfied;
            }),
            tt,
          );
          well_founded = push-IsWellFounded inputs (record c { nested = g }) wf h;
          found =
              (record c { nested = g }, get_elem?-push_self inputs (record c { nested = g }), refl);
        })

  find_nested-Post :
      (key : String) (format : ClaimFormatDesignation)
      (nested : Option (Json → List (DecodedInput T) → Found T (List ℕ))) (json : Option Json)
      (inputs : List (DecodedInput T))
      → Nested key nested
      → Held inputs
      → Post (Ends (FoundNested key) inputs) (find_nested format nested json inputs)
  unfolding find_nested
  find_nested-Post key format none json inputs n (s, wf) = record {
    grows = Grown-refl inputs;
    sound = s;
    well_founded = wf;
    found = tt;
  }
  find_nested-Post key format (some f) none inputs n i = tt
  find_nested-Post key format (some f) (some v) inputs n i =
      Post-bind (Ends (FoundAll key) inputs) (Ends (FoundNested key) inputs) (f v inputs) _
        (n v inputs i)
        (λ r a. record {
          grows = a.grows;
          sound = a.sound;
          well_founded = a.well_founded;
          found = FoundNested-if key r.0 r.1 a.found;
        })

  items_loop-Post :
      (id : String) (step : Json → List (DecodedInput T) → Found T (Option ℕ)) (items : List Json)
      (inputs : List (DecodedInput T))
      → ((v : Json) (xs : List (DecodedInput T))
          → Held xs
          → Post (Ends (FoundAt id) xs) (step v xs))
      → Held inputs
      → Post (Ends (FoundAll id) inputs) (items_loop step items inputs)
  unfolding items_loop
  items_loop-Post id step [] inputs h (s, wf) = record {
    grows = Grown-refl inputs;
    sound = s;
    well_founded = wf;
    found = tt;
  }
  items_loop-Post id step (item ∷ items) inputs h i =
      Post-bind (Ends (FoundAt id) inputs) (Ends (FoundAll id) inputs) (step item inputs) _
        (h item inputs i)
        (λ r a.
          Post-bind (Ends (FoundAll id) r.0) (Ends (FoundAll id) inputs) (items_loop step items r.0)
            _ (items_loop-Post id step items r.0 h (a.sound, a.well_founded))
            (λ t b. record {
              grows = Grown-trans a.grows b.grows;
              sound = b.sound;
              well_founded = b.well_founded;
              found = cons_found-FoundAll id r.0 t.0 r.1 t.1 b.grows a.found b.found;
            }))

  check_constraints-Post :
      (format : ClaimFormatDesignation) (constraints : Constraints) (json : Option Json)
      → Post
          (λ b. check_constraints query is_valid format constraints json ≡ ok b)
          (check_constraints query is_valid format constraints json)
  unfolding check_constraints
  check_constraints-Post format constraints none =
      elim (Bool-cases (InputDescriptor.is_empty constraints)) [
        | inl h ↦ rw h refl
        | inr h ↦ rw h tt
      ]
  check_constraints-Post format constraints (some v) =
      elim (Bool-cases (InputDescriptor.is_empty constraints)) [
        | inl h ↦ rw h refl
        | inr h ↦ rw h refl
      ]

  module _ (id key : String) (format : ClaimFormatDesignation) (path : JsonPath)
      (nested : Option (Json → List (DecodedInput T) → Found T (List ℕ))) (n : Nested key nested)
      (d : InputDescriptor) (defined : Dict.lookup id descriptors ≡ some d)
      (constraint : Option ClaimFormatPayload)
      (allowed : format_constraint d.format definition format ≡ ok constraint) where
    push_unless_skipped-Post :
        (item : Json) (value : T) (json : Option Json) (inputs ys : List (DecodedInput T))
        (indexes : Option (List ℕ))
        → decode item format constraint ≡ ok (value, json)
        → check_constraints query is_valid format d.constraints json ≡ ok true
        → Ends (FoundNested key) inputs (ys, indexes)
        → Post (Ends (FoundAt id) inputs) (push_unless_skipped id format value ys indexes)
    unfolding push_unless_skipped
    push_unless_skipped-Post item value json inputs ys none e k a = record {
      grows = a.grows;
      sound = a.sound;
      well_founded = a.well_founded;
      found = tt;
    }
    push_unless_skipped-Post item value json inputs ys (some js) e k a =
        After-Post query is_valid decode definition descriptors (FoundAt id) inputs ys
          (push_input id format value js ys) a.grows
          (push_input-Post
            (record { descriptor_id = id; format = format; value = value; nested = [] }) key js ys
            (record {
              descriptor = d;
              defined = defined;
              constraint = constraint;
              allowed = format_constraint-Allows d.format definition format constraint allowed;
              item = item;
              json = json;
              decodes = e;
              satisfied =
                  Satisfies-check query is_valid decode definition descriptors format d.constraints
                    json k;
            })
            (a.sound, a.well_founded) a.found)

    find_kept-Post :
        (item : Json) (value : T) (json : Option Json) (inputs : List (DecodedInput T))
        (keep : Bool)
        → decode item format constraint ≡ ok (value, json)
        → check_constraints query is_valid format d.constraints json ≡ ok keep
        → Held inputs
        → Post (Ends (FoundAt id) inputs) (find_kept id format nested value json inputs keep)
    unfolding find_kept
    find_kept-Post item value json inputs false e k (s, wf) = record {
      grows = Grown-refl inputs;
      sound = s;
      well_founded = wf;
      found = tt;
    }
    find_kept-Post item value json inputs true e k i =
        Post-bind (Ends (FoundNested key) inputs) (Ends (FoundAt id) inputs)
          (find_nested format nested json inputs) _
          (find_nested-Post key format nested json inputs n i)
          (λ r a. push_unless_skipped-Post item value json inputs r.0 r.1 e k a)

    find_item-Post :
        (item : Json) (inputs : List (DecodedInput T))
        → Held inputs
        → Post
            (Ends (FoundAt id) inputs)
            (find_item query is_valid decode id format d.constraints constraint nested item inputs)
    unfolding find_item
    find_item-Post item inputs i =
        Post-bind (λ r. decode item format constraint ≡ ok r) (Ends (FoundAt id) inputs)
          (map_err (λ e. failed (decoding e)) (decode item format constraint)) _
          (Post-failed (λ r. decode item format constraint ≡ ok r) decoding
            (decode item format constraint) (λ r e. e))
          (λ r e.
            Post-bind (λ b. check_constraints query is_valid format d.constraints r.1 ≡ ok b)
              (Ends (FoundAt id) inputs) (check_constraints query is_valid format d.constraints r.1)
              _ (check_constraints-Post format d.constraints r.1)
              (λ b k. find_kept-Post item r.0 r.1 inputs b e k i))

  find_level-Post :
      (id key : String) (format : ClaimFormatDesignation) (path : JsonPath)
      (nested : Option (Json → List (DecodedInput T) → Found T (List ℕ))) (value : Json)
      (inputs : List (DecodedInput T))
      → Nested key nested
      → Held inputs
      → Post (Ends (FoundAll id) inputs) (
          find_level query is_valid decode definition descriptors id format path nested value
            inputs)
  unfolding find_level
  find_level-Post id key format path nested value inputs n i =
      Post-bind (λ d. Dict.lookup id descriptors ≡ some d) (Ends (FoundAll id) inputs)
        (ok_or (failed (undefined_input_descriptor id)) (Dict.lookup id descriptors)) _
        (Post-ok_or (undefined_input_descriptor id) (Dict.lookup id descriptors))
        (λ d defined.
          Post-bind (λ c. format_constraint d.format definition format ≡ ok c)
            (Ends (FoundAll id) inputs)
            (map_err failed (format_constraint d.format definition format)) _
            (Post-failed (λ c. format_constraint d.format definition format ≡ ok c) (λ e. e)
              (format_constraint d.format definition format) (λ c e. e))
            (λ c allowed.
              items_loop-Post id _ (query path value) inputs
                (find_item-Post id key format path nested n d defined c allowed) i))

  pub find_inputs_with-Post :
      (m : DescriptorMap) (value : Json) (inputs : List (DecodedInput T))
      → Held inputs
      → Post
          (Ends (FoundAll (map_id m)) inputs)
          (find_inputs_with query is_valid decode definition descriptors m value inputs)
  unfolding find_inputs_with
  find_inputs_with-Post (flat id format path) value inputs i =
      find_level-Post id "" format path none value inputs tt i
  find_inputs_with-Post (nesting id format path nested) value inputs i =
      find_level-Post id (map_id nested) format path
        (some (find_inputs_with query is_valid decode definition descriptors nested)) value inputs
        (find_inputs_with-Post nested) i
