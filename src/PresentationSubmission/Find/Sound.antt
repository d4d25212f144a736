-- ===== src/PresentationSubmission/Find/Sound.antt =====
-- What an input that is found must be, and what holds after a call that finds inputs.
use openid4vp.Common.{
  ℕ, String, Bool, true, List, [], ◌∷◌, is_empty as vec_is_empty, Option, none, some, ok, err,
  string_eq, ◌≡◌, refl, if◌then◌else◌, ◌⊎◌, inl, inr, arith, All, Bool-cases, Option-cases,
}
use openid4vp.Common.Dict
use openid4vp.Common.Dict.{Dict}
use openid4vp.Json.{Json}
use openid4vp.CredentialFormat.Designation.{ClaimFormatDesignation, designation_eq}
use openid4vp.CredentialFormat.Payload.{ClaimFormatPayload, ClaimFormatMap}
use openid4vp.InputDescriptor
use openid4vp.InputDescriptor.{JsonPath, Constraints, InputDescriptor}
use openid4vp.PresentationSubmission.Types.{DecodedInput, failed, panicked, ClaimsDecoder}
use openid4vp.PresentationSubmission.Grouping.Laws.{Points}
use openid4vp.PresentationSubmission.Find.Grown.{
  Post, Grown, Grown-trans, Points-Grown, IsWellFounded,
}
use openid4vp.PresentationSubmission.Find.{format_constraint, Found, check_constraints, cons_found}

module _ {T : Type 0} where
  abbrev pub FoundAt : String → List (DecodedInput T) → Option ℕ → Type 0
  FoundAt id inputs none = Unit
  FoundAt id inputs (some i) = Points inputs i id

  abbrev pub FoundAll : String → List (DecodedInput T) → List ℕ → Type 0
  FoundAll id inputs = All (λ i. Points inputs i id)

  abbrev pub FoundNested : String → List (DecodedInput T) → Option (List ℕ) → Type 0
  FoundNested key inputs none = Unit
  FoundNested key inputs (some js) = FoundAll key inputs js

  pub FoundNested-if :
      (key : String) (inputs : List (DecodedInput T)) (js : List ℕ)
      → FoundAll key inputs js
      → FoundNested key inputs (if vec_is_empty js then none else some js)
  FoundNested-if key inputs [] h = tt
  FoundNested-if key inputs (j ∷ js) h = h

  pub cons_found-FoundAll :
      (id : String) (xs ys : List (DecodedInput T)) (found : Option ℕ) (js : List ℕ)
      → Grown xs ys
      → FoundAt id xs found
      → FoundAll id ys js
      → FoundAll id ys (cons_found found js)
  cons_found-FoundAll id xs ys none js g f h = h
  cons_found-FoundAll id xs ys (some i) js g f h = (Points-Grown xs ys i id g f, h)

-- The format is one that the descriptor names; or the descriptor names none, and it is one that the
-- definition names, or that names none either. The constraint is the one that is named with it.
abbrev pub Allows :
    ClaimFormatMap → ClaimFormatMap → ClaimFormatDesignation → Option ClaimFormatPayload → Type 0
Allows descriptor definition format constraint =
    ((c : ClaimFormatPayload) × (Dict.lookup format descriptor ≡ some c) × (constraint ≡ some c))
    ⊎ ((descriptor ≡ [])
        × (((c : ClaimFormatPayload) × (Dict.lookup format definition ≡ some c)
              × (constraint ≡ some c))
            ⊎ ((definition ≡ []) × (constraint ≡ none))))

pub format_constraint-Allows :
    (descriptor definition : ClaimFormatMap) (format : ClaimFormatDesignation)
    (constraint : Option ClaimFormatPayload)
    → format_constraint descriptor definition format ≡ ok constraint
    → Allows descriptor definition format constraint
unfolding format_constraint Dict.lookup
format_constraint-Allows (x ∷ xs) definition format constraint h =
    elim (Option-cases (Dict.lookup format (x ∷ xs))) [
      | inr (c, e) ↦ inl (c, e, (let k = rw (format_constraint, e) at h in cc))
      | inl e ↦ let k = rw (format_constraint, e) at h in absurd (cc)
    ]
format_constraint-Allows [] [] format constraint h = inr (refl, inr (refl, cc))
format_constraint-Allows [] (x ∷ xs) format constraint h =
    elim (Option-cases (Dict.lookup format (x ∷ xs))) [
      | inr (c, e) ↦ inr (refl, inl (c, e, (let k = rw (format_constraint, e) at h in cc)))
      | inl e ↦ let k = rw (format_constraint, e) at h in absurd (cc)
    ]

module _ {T : Type 0} (query : JsonPath → Json → List Json) (is_valid : Json → Json → Bool)
    (decode : ClaimsDecoder T) (definition : ClaimFormatMap)
    (descriptors : Dict String InputDescriptor) where
  -- There are no constraints, or the decoded claims match them.
  abbrev pub Satisfies : Constraints → Option Json → Type 0
  Satisfies constraints json =
      (InputDescriptor.is_empty constraints ≡ true)
      ⊎ ((v : Json) × (json ≡ some v)
          × (InputDescriptor.matches query is_valid constraints v ≡ true))

  pub Satisfies-check :
      (format : ClaimFormatDesignation) (constraints : Constraints) (json : Option Json)
      → check_constraints query is_valid format constraints json ≡ ok true
      → Satisfies constraints json
  unfolding check_constraints
  Satisfies-check format constraints none h =
      elim (Bool-cases (InputDescriptor.is_empty constraints)) [
        | inl none_given ↦ inl none_given
        | inr given ↦ let k = rw (check_constraints, given) at h in cc
      ]
  Satisfies-check format constraints (some v) h =
      elim (Bool-cases (InputDescriptor.is_empty constraints)) [
        | inl none_given ↦ inl none_given
        | inr given ↦ let k = rw (check_constraints, given) at h in inr (v, refl, ground arith)
      ]

  -- The input is of a format that is allowed, it was decoded with the constraint for that format
  -- of its descriptor or, where the descriptor names no formats, of the definition, and what it was decoded
  -- to satisfies the descriptor's constraints.
  pub record Sound (c : DecodedInput T) : Type 0 where
    pub descriptor : InputDescriptor
    pub defined : Dict.lookup c.descriptor_id descriptors ≡ some descriptor
    pub constraint : Option ClaimFormatPayload
    pub allowed : Allows descriptor.format definition c.format constraint
    pub item : Json
    pub json : Option Json
    pub decodes : decode item c.format constraint ≡ ok (c.value, json)
    pub satisfied : Satisfies descriptor.constraints json

  abbrev pub Inv : List (DecodedInput T) → Type 0
  Inv inputs = All Sound inputs × IsWellFounded inputs

  -- What holds after a call that got `inputs`.
  pub record After {A : Type 0} (P : List (DecodedInput T) → A → Type 0)
      (inputs : List (DecodedInput T)) (r : List (DecodedInput T) × A) : Type 0 where
    pub grows : Grown inputs r.0
    pub sound : All Sound r.0
    pub well_founded : IsWellFounded r.0
    pub found : P r.0 r.1

  -- Inputs to descend into are searched for as the whole call does.
  abbrev pub IsSearch : String → (Json → List (DecodedInput T) → Found T (List ℕ)) → Type 0
  IsSearch id f =
      (v : Json) (inputs : List (DecodedInput T))
      → Inv inputs
      → Post (After (FoundAll id) inputs) (f v inputs)

  abbrev pub IsNested : String → Option (Json → List (DecodedInput T) → Found T (List ℕ)) → Type 0
  IsNested id none = Unit
  IsNested id (some f) = IsSearch id f

  pub After-Post :
      {A : Type 0} (P : List (DecodedInput T) → A → Type 0) (xs ys : List (DecodedInput T))
      (r : Found T A)
      → Grown xs ys
      → Post (After P ys) r
      → Post (After P xs) r
  After-Post P xs ys (ok r) g a = record {
    grows = Grown-trans g a.grows;
    sound = a.sound;
    well_founded = a.well_founded;
    found = a.found;
  }
  After-Post P xs ys (err (failed e)) g a = tt
  After-Post P xs ys (err panicked) g a = a
