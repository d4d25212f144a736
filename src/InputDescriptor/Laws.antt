-- ===== src/InputDescriptor/Laws.antt =====
-- What the query of a field finds, and when a value matches the constraints.
use mathlib.Core.List.{Memᴰ}
use mathlib.Core.Option.{or_else}
use openid4vp.Common.{
  ◌≡◌, refl, ◌≢◌, ◌↔◌, ◌⊎◌, inl, inr, Bool, true, Option, none, some, List, [], ◌∷◌, arith, All,
  Bool-cases,
}
use openid4vp.Json.{Json}
use openid4vp.InputDescriptor.{
  JsonPath, ConstraintsField, Constraints, is_required_field, passes, query_candidates, query_paths,
  query_field, matches, matches_fields, FieldQueryResult,
}

module _ (query : JsonPath → Json → List Json) (is_valid : Json → Json → Bool) where
  -- A candidate among the given ones that passes the filter.
  abbrev pub Admits : ConstraintsField → List Json → Type 0
  Admits f candidates = (c : Json) × Memᴰ c candidates × (passes is_valid f.filter c ≡ true)

  -- Some path of the field leads to a candidate that passes the filter.
  abbrev pub SelectsAlong : ConstraintsField → List JsonPath → Json → Type 0
  SelectsAlong f paths v = (p : JsonPath) × Memᴰ p paths × Admits f (query p v)

  abbrev pub Selects : ConstraintsField → Json → Type 0
  Selects f v = SelectsAlong f f.path.vec v

  query_candidates_sound :
      (f : ConstraintsField) (candidates : List Json)
      → query_candidates query is_valid f candidates ≢ none
      → Admits f candidates
  unfolding query_candidates
  query_candidates_sound f [] h = absurd (h refl)
  query_candidates_sound f (c ∷ cs) h = elim (Bool-cases (passes is_valid f.filter c)) [
    | inl pass ↦ (c, Memᴰ.head refl, pass)
    | inr fail ↦
        let (d, listed, pass) = query_candidates_sound f cs (rw fail at h) in
        (d, Memᴰ.tail listed, pass)
  ]

  query_candidates_complete :
      (f : ConstraintsField) {c : Json} {candidates : List Json}
      → Memᴰ c candidates
      → passes is_valid f.filter c ≡ true
      → query_candidates query is_valid f candidates ≢ none
  unfolding query_candidates
  query_candidates_complete f (Memᴰ.head e) pass = ground arith
  query_candidates_complete f (Memᴰ.tail m) pass =
      ground (arith, query_candidates_complete f m pass)

  or_else_cases : (a b : Option FieldQueryResult) → or_else a b ≢ none → (a ≢ none) ⊎ (b ≢ none)
  unfolding or_else
  or_else_cases none b h = inr h
  or_else_cases (some r) b h = inl h

  -- The first path with an accepted candidate gives the answer.
  query_paths-cons :
      (f : ConstraintsField) (p : JsonPath) (ps : List JsonPath) (v : Json)
      → query_paths query is_valid f (p ∷ ps) v
        ≡ or_else
            (query_candidates query is_valid f (query p v))
            (query_paths query is_valid f ps v)
  unfolding query_paths query_candidates or_else
  query_paths-cons f p ps v = ground arith

  query_paths_sound :
      (f : ConstraintsField) (paths : List JsonPath) (v : Json)
      → query_paths query is_valid f paths v ≢ none
      → SelectsAlong f paths v
  unfolding query_paths
  query_paths_sound f [] v h = absurd (h refl)
  query_paths_sound f (p ∷ ps) v h = elim (or_else_cases _ _ (rw query_paths-cons at h)) [
    | inl here ↦ (p, Memᴰ.head refl, query_candidates_sound f (query p v) here)
    | inr there ↦ let (q, listed, a) = query_paths_sound f ps v there in (q, Memᴰ.tail listed, a)
  ]

  query_paths_complete :
      (f : ConstraintsField) {p : JsonPath} {paths : List JsonPath} (v : Json)
      → Memᴰ p paths
      → Admits f (query p v)
      → query_paths query is_valid f paths v ≢ none
  unfolding or_else
  query_paths_complete f {paths = []} v m a = elim m [ ]
  query_paths_complete f {p} {paths = x ∷ xs} v (Memᴰ.head e) (c, listed, pass) =
      rw (query_paths-cons, ← e) (ground (arith, query_candidates_complete f listed pass))
  query_paths_complete f {paths = x ∷ xs} v (Memᴰ.tail m) a =
      rw query_paths-cons (ground (arith, query_paths_complete f v m a))

  -- The query of a field has an answer exactly when one of the paths of the field leads to a
  -- value that passes its filter, if it has one.
  pub query_field_iff :
      (f : ConstraintsField) (v : Json) → (query_field query is_valid f v ≢ none) ↔ Selects f v
  unfolding query_field
  query_field_iff f v =
      (query_paths_sound f f.path.vec v, λ (p, listed, a). query_paths_complete f v listed a)

  -- Every required field is found.
  abbrev pub Meets : List ConstraintsField → Json → Type 0
  Meets fields v = All (λ f. is_required_field f ≡ true → Selects f v) fields

  required_found :
      (f : ConstraintsField) (fs : List ConstraintsField) (v : Json)
      → matches_fields query is_valid (f ∷ fs) v ≡ true
      → is_required_field f ≡ true
      → query_field query is_valid f v ≢ none
  unfolding matches_fields
  required_found f fs v h req = ground arith

  matches_fields-cons :
      (f : ConstraintsField) (fs : List ConstraintsField) (v : Json)
      → (is_required_field f ≡ true → query_field query is_valid f v ≢ none)
      → matches_fields query is_valid (f ∷ fs) v ≡ matches_fields query is_valid fs v
  unfolding matches_fields
  matches_fields-cons f fs v h = elim (Bool-cases (is_required_field f)) [
    | inl req ↦ let found = h req in ground arith
    | inr opt ↦ ground arith
  ]

  matches_fields_sound :
      (fields : List ConstraintsField) (v : Json)
      → matches_fields query is_valid fields v ≡ true
      → Meets fields v
  matches_fields_sound [] v h = tt
  matches_fields_sound (f ∷ fs) v h =
      let found = required_found f fs v h in
      (
        λ req. (query_field_iff f v).0 (found req),
        matches_fields_sound fs v (rw (matches_fields-cons f fs v found) at h),
      )

  matches_fields_complete :
      (fields : List ConstraintsField) (v : Json)
      → Meets fields v
      → matches_fields query is_valid fields v ≡ true
  unfolding matches_fields
  matches_fields_complete [] v h = refl
  matches_fields_complete (f ∷ fs) v (k, ks) =
      rw (matches_fields-cons f fs v (λ req. (query_field_iff f v).1 (k req)))
        (matches_fields_complete fs v ks)

  -- A value matches the constraints exactly when each of their required fields has a path that
  -- leads to a value that passes the filter of the field, if it has one.
  pub matches_iff :
      (c : Constraints) (v : Json) → (matches query is_valid c v ≡ true) ↔ Meets c.fields v
  unfolding matches
  matches_iff c v = (matches_fields_sound c.fields v, matches_fields_complete c.fields v)
