-- ===== src/PresentationSubmission/Find/Correct.antt =====
-- What `find_inputs` of a submission and of a descriptor map returns.
use mathlib.Core.Option as O
use openid4vp.Common.{
  ℕ, nat_eq, contains, true, ◌↔◌, String, Bool, List, [], ◌∷◌, Result, ok, err, string_eq, ◌≡◌, ◌≢◌,
  refl, All,
}
use openid4vp.Common.Dict
use openid4vp.Json.{Json}
use openid4vp.InputDescriptor.{JsonPath}
use openid4vp.PresentationDefinition.{PresentationDefinition, input_descriptors_map}
use openid4vp.PresentationSubmission.Types.{
  DescriptorMap, map_id, PresentationSubmission, DecodedInput, MatchingInputs, Fault, failed,
  panicked, ClaimsDecoder,
}
use openid4vp.PresentationSubmission.Grouping.{index_from}
use openid4vp.PresentationSubmission.Grouping.Laws.{Points, index_from_iff}
use openid4vp.PresentationSubmission.Find.{find_map_inputs, maps_loop, find_inputs}
use openid4vp.PresentationSubmission.Find.Grown.{Post, Post-bind, Grown, IsWellFounded}
use openid4vp.PresentationSubmission.Find.Sound.{FoundAll, Sound}
use openid4vp.PresentationSubmission.Find.Laws.{find_inputs_with-Post}

not_panicked : {A : Type 0} (P : A → Type 0) (r : Result Fault A) → Post P r → r ≢ err panicked
not_panicked P (ok a) h e = cc
not_panicked P (err (failed f)) h e = cc
not_panicked P (err panicked) h e = elim h [ ]

Post-ok : {A : Type 0} (P : A → Type 0) (r : Result Fault A) {a : A} → Post P r → r ≡ ok a → P a
Post-ok P r h e = rw e at h

module _ {T : Type 0} (query : JsonPath → Json → List Json) (is_valid : Json → Json → Bool)
    (decode : ClaimsDecoder T) (definition : PresentationDefinition) where
  -- The input is one for a descriptor of the definition: it was decoded as that descriptor's
  -- format constraints ask, and satisfies its constraints.
  abbrev pub IsSound : DecodedInput T → Type 0
  IsSound = Sound query is_valid decode definition.format (input_descriptors_map definition)

  maps_loop-Post :
      (ms : List DescriptorMap) (value : Json) (inputs : List (DecodedInput T))
      → All IsSound inputs × IsWellFounded inputs
      → Post
          (λ ys. All IsSound ys × IsWellFounded ys)
          (maps_loop query is_valid decode ms definition value inputs)
  unfolding maps_loop find_map_inputs
  maps_loop-Post [] value inputs i = i
  maps_loop-Post (m ∷ ms) value inputs i =
      Post-bind _ (λ ys. All IsSound ys × IsWellFounded ys)
        (find_map_inputs query is_valid decode m definition value inputs) _
        (find_inputs_with-Post query is_valid decode definition.format
          (input_descriptors_map definition) m value inputs i)
        (λ r a. maps_loop-Post ms value r.0 (a.sound, a.well_founded))

  find_inputs-Post :
      (submission : PresentationSubmission) (value : Json)
      → Post
          (λ m.
            (All IsSound m.inputs × IsWellFounded m.inputs)
            × (m.by_descriptor ≡ index_from 0 [] m.inputs))
          (find_inputs query is_valid decode submission definition value)
  unfolding find_inputs
  find_inputs-Post submission value =
      Post-bind _ _ (maps_loop query is_valid decode submission.descriptor_map definition value [])
        _ (maps_loop-Post submission.descriptor_map value [] (tt, λ i c h. cc)) (λ ys i. (i, refl))

  -- The search for the inputs of a submission never panics, whatever the query, the schema check
  -- and the decoder return.
  pub find_inputs-no_panic :
      (submission : PresentationSubmission) (value : Json)
      → find_inputs query is_valid decode submission definition value ≢ err panicked
  find_inputs-no_panic submission value =
      not_panicked _ (find_inputs query is_valid decode submission definition value)
        (find_inputs-Post submission value)

  -- Every input that is found for a submission is sound: its descriptor is defined; its format is
  -- one that the descriptor lists or, where the descriptor lists none, one that the definition
  -- lists, or that lists none either; it was decoded under the constraint listed there with its
  -- format; and the descriptor has no constraints or the decoded claims match them.
  pub find_inputs-IsSound :
      (submission : PresentationSubmission) (value : Json) (m : MatchingInputs T)
      → find_inputs query is_valid decode submission definition value ≡ ok m
      → All IsSound m.inputs
  find_inputs-IsSound submission value m e =
      (Post-ok _ (find_inputs query is_valid decode submission definition value)
        (find_inputs-Post submission value) e).0.0

  -- The nested indices of every input that is found for a submission point to inputs that stand
  -- before it, each of them an input for the descriptor under which it is listed.
  pub find_inputs-IsWellFounded :
      (submission : PresentationSubmission) (value : Json) (m : MatchingInputs T)
      → find_inputs query is_valid decode submission definition value ≡ ok m
      → IsWellFounded m.inputs
  find_inputs-IsWellFounded submission value m e =
      (Post-ok _ (find_inputs query is_valid decode submission definition value)
        (find_inputs-Post submission value) e).0.1

  pub find_inputs-indexed :
      (submission : PresentationSubmission) (value : Json) (m : MatchingInputs T)
      → find_inputs query is_valid decode submission definition value ≡ ok m
      → m.by_descriptor ≡ index_from 0 [] m.inputs
  find_inputs-indexed submission value m e =
      (Post-ok _ (find_inputs query is_valid decode submission definition value)
        (find_inputs-Post submission value) e).1

  -- Of the inputs that are found for a submission, `by_descriptor` lists under an identifier
  -- exactly the indices of those for that descriptor.
  pub find_inputs-by_descriptor_iff :
      (submission : PresentationSubmission) (value : Json) (m : MatchingInputs T)
      → find_inputs query is_valid decode submission definition value ≡ ok m
      → (i : ℕ) (key : String)
      → (contains (O.get_or (Dict.lookup key m.by_descriptor) []) i ≡ true) ↔ Points m.inputs i key
  find_inputs-by_descriptor_iff submission value m e i key =
      rw (find_inputs-indexed submission value m e) (index_from_iff m.inputs i key)

  -- Of inputs that are sound and whose nested indices are well founded, a descriptor map keeps
  -- all and adds inputs behind them, and every index it returns points to an input for the
  -- identifier of the map.
  pub find_map_inputs-FoundAll :
      (d : DescriptorMap) (value : Json) (inputs found : List (DecodedInput T)) (indexes : List ℕ)
      → All IsSound inputs
      → IsWellFounded inputs
      → find_map_inputs query is_valid decode d definition value inputs ≡ ok (found, indexes)
      → Grown inputs found × FoundAll (map_id d) found indexes
  unfolding find_map_inputs
  find_map_inputs-FoundAll d value inputs found indexes s wf e =
      let a =
        Post-ok _ (find_map_inputs query is_valid decode d definition value inputs)
          (find_inputs_with-Post query is_valid decode definition.format
            (input_descriptors_map definition) d value inputs (s, wf))
          e in
      (a.grows, a.found)
