-- ===== src/PresentationDefinition/Laws.antt =====
-- How `is_credential_match` relates to the constraints of the descriptors.
use mathlib.Core.List.{Memᴰ}
use openid4vp.Common.{
  ◌≡◌, refl, ◌≢◌, ◌↔◌, inl, inr, Bool, true, not, ◌||◌, Option, none, some, List, [], ◌∷◌, arith,
  All, All-mono, Bool-cases, any, any_of_mem, mem_of_any, all_iff,
}
use openid4vp.Json.{Json}
use openid4vp.InputDescriptor.{
  JsonPath, ConstraintsField, CompiledJsonSchema, is_required_field, matches, passes,
}
use openid4vp.InputDescriptor.Laws.{Selects, matches_iff}
use openid4vp.PresentationDefinition.{
  PresentationDefinition, path_valid, field_match, fields_match, is_credential_match,
}

module _ (query : JsonPath → Json → List Json) (is_valid : Json → Json → Bool) where
  -- Some path leads to a valid value.
  abbrev Reaches : Json → List JsonPath → Json → Type 0
  Reaches schema paths v =
      (p : JsonPath) × Memᴰ p paths × ((c : Json) × Memᴰ c (query p v) × (is_valid schema c ≡ true))

  path_valid_sound :
      (schema : Json) (paths : List JsonPath) (v : Json)
      → path_valid query is_valid schema paths v ≡ true
      → Reaches schema paths v
  unfolding path_valid
  path_valid_sound schema [] v h = cc
  path_valid_sound schema (p ∷ ps) v h = elim (Bool-cases (any (is_valid schema) (query p v))) [
    | inl here ↦ (p, Memᴰ.head refl, mem_of_any (is_valid schema) (query p v) here)
    | inr later ↦
        let (q, listed, c) = path_valid_sound schema ps v (rw later at h) in
        (q, Memᴰ.tail listed, c)
  ]

  path_valid_complete :
      (schema : Json) {p : JsonPath} {paths : List JsonPath} (v : Json) (c : Json)
      → Memᴰ p paths
      → Memᴰ c (query p v)
      → is_valid schema c ≡ true
      → path_valid query is_valid schema paths v ≡ true
  unfolding path_valid
  path_valid_complete schema v c (Memᴰ.head e) m h =
      rw (← e) (ground (arith, any_of_mem (is_valid schema) m h))
  path_valid_complete schema v c (Memᴰ.tail l) m h =
      ground (arith, path_valid_complete schema v c l m h)

  -- The field is optional, or has no filter, or is found in the value.
  abbrev pub IsAnswered : Json → ConstraintsField → Type 0
  IsAnswered v f = is_required_field f ≡ true → f.filter ≢ none → Selects query is_valid f v

  path_valid_iff :
      (schema : Json) (paths : List JsonPath) (v : Json)
      → (path_valid query is_valid schema paths v ≡ true) ↔ Reaches schema paths v
  path_valid_iff schema paths v = (
    path_valid_sound schema paths v,
    λ (p, listed, a). path_valid_complete schema v a.0 listed a.1 a.2,
  )

  field_match_iff :
      (f : ConstraintsField) (filter : Option CompiledJsonSchema) (v : Json)
      → f.filter ≡ filter
      → (field_match query is_valid filter f.path.vec v ≡ true)
        ↔ (filter ≢ none → Selects query is_valid f v)
  unfolding field_match passes
  field_match_iff f none v e = (λ _ h. absurd (h refl), λ _. refl)
  field_match_iff f (some schema) v e = (
    λ h _.
        let (p, listed, a) = (path_valid_iff schema.raw f.path.vec v).0 h in
        (p, listed, (a.0, a.1, rw e a.2)),
    λ g.
        let (p, listed, a) = g (λ h. cc) in
        path_valid_complete schema.raw v a.0 listed a.1 (rw e at (a.2)),
  )

  IsAnswered-iff :
      (f : ConstraintsField) (v : Json)
      → ((not (is_required_field f) || field_match query is_valid f.filter f.path.vec v) ≡ true)
        ↔ IsAnswered v f
  IsAnswered-iff f v = (
    λ h req. (field_match_iff f f.filter v refl).0 (ground arith),
    λ g. elim (Bool-cases (is_required_field f)) [
      | inl req ↦ let found = (field_match_iff f f.filter v refl).1 (g req) in ground arith
      | inr opt ↦ ground arith
    ],
  )

  -- A credential matches the definition exactly when, in every descriptor, each required field
  -- that has a filter has a path that leads to a value that passes it.
  pub is_credential_match_iff :
      (d : PresentationDefinition) (v : Json)
      → (is_credential_match query is_valid d v ≡ true)
        ↔ All (λ descriptor. All (IsAnswered v) descriptor.constraints.fields) d.input_descriptors
  unfolding is_credential_match fields_match
  is_credential_match_iff d v =
      all_iff _ (λ descriptor. all_iff _ (λ f. IsAnswered-iff f v) descriptor.constraints.fields)
        d.input_descriptors

  -- A credential that matches the constraints of every descriptor matches the definition.
  pub is_credential_match_of_matches :
      (d : PresentationDefinition) (v : Json)
      → All
          (λ descriptor. matches query is_valid descriptor.constraints v ≡ true)
          d.input_descriptors
      → is_credential_match query is_valid d v ≡ true
  is_credential_match_of_matches d v h = (is_credential_match_iff d v).1 (
      All-mono d.input_descriptors
        (λ descriptor m.
          All-mono descriptor.constraints.fields (λ f found req _. found req)
            ((matches_iff query is_valid descriptor.constraints v).0 m))
        h)
