-- ===== src/PresentationSubmission/Requirement/Satisfied.antt =====
-- What submission requirements ask of inputs, and the single checks.
use openid4vp.Common.{
  ℕ, All, ◌≤◌, String, Bool, true, not, ◌&&◌, List, [], ◌∷◌, any, is_some, Option, none, some,
  Result, ok, err, ◌>>=◌, map_err, string_eq, nat_eq, contains, ◌==◌, beq_refl, ◌≡◌, ◌↔◌, refl, ap,
  ◌∙◌, inl, inr, Bool-cases, arith,
}
use openid4vp.Common.Dict
use openid4vp.Common.Dict.{Dict}
use openid4vp.InputDescriptor.{GroupId, InputDescriptor}
use openid4vp.PresentationDefinition.{
  PresentationDefinition, SubmissionRequirement, all_of, pick, from, from_nested, Requirements,
  done, and,
}
use openid4vp.PresentationSubmission.Types.{DecodedInput}
use openid4vp.PresentationSubmission.Grouping.{index_from}
use openid4vp.PresentationSubmission.Grouping.Laws.{is_empty-positions, lookup-index_from_zero}
use openid4vp.PresentationSubmission.Requirement.{
  Pick, group_ids, count_if, check_min, check_max, check_count, missing_loop, none_or_empty,
}

-- Is the identifier that of a descriptor in the group?
abbrev pub in_group : GroupId → PresentationDefinition → String → Bool
in_group group definition id =
    any (λ d. d.id == id && contains d.groups group) definition.input_descriptors

-- The number of inputs lies between `min` and `max`, and equals `count`, where these are given.
abbrev pub Within : Pick → ℕ → Type 0
Within p n =
    ((k : ℕ) → p.min ≡ some k → k ≤ n)
    × ((k : ℕ) → p.max ≡ some k → n ≤ k)
    × ((k : ℕ) → p.count ≡ some k → n ≡ k)

module _ {T : Type 0} where
  abbrev pub has_input : List (DecodedInput T) → String → Bool
  has_input inputs id = any (λ c. c.descriptor_id == id) inputs

  -- What a requirement asks of the inputs. A nested requirement asks for all of its parts, also
  -- under the rule `pick`, whose bounds are not looked at then.
  unfoldable mutual
    pub Satisfied : PresentationDefinition → List (DecodedInput T) → SubmissionRequirement → Type 0
    Satisfied definition inputs (all_of (from g b)) =
        (id : String) → in_group g definition id ≡ true → has_input inputs id ≡ true
    Satisfied definition inputs (all_of (from_nested rs b)) = SatisfiedNested definition inputs rs
    Satisfied definition inputs (pick (from g b) count min max) =
        Within (record { count = count; min = min; max = max })
          (count_if (λ c. in_group g definition c.descriptor_id) inputs)
    Satisfied definition inputs (pick (from_nested rs b) count min max) =
        SatisfiedNested definition inputs rs

    pub SatisfiedNested : PresentationDefinition → List (DecodedInput T) → Requirements → Type 0
    SatisfiedNested definition inputs done = Unit
    SatisfiedNested definition inputs (and r rs) =
        Satisfied definition inputs r × SatisfiedNested definition inputs rs

-- What validation asks: the requirements of the definition, or by default an input for each
-- descriptor.
module _ {T : Type 0} where
  unfoldable pub AllSatisfied : PresentationDefinition → List (DecodedInput T) → Type 0
  AllSatisfied definition inputs = elim definition.submission_requirements [
    | some requirements ↦ All (Satisfied definition inputs) requirements
    | none ↦ All (λ d. has_input inputs d.id ≡ true) definition.input_descriptors
  ]

pub checked :
    {E F A : Type 0} (g : E → F) (v : Result E (Unit {0})) {a b : A}
    → (map_err g v >>= λ _. ok a) ≡ ok b
    → (v ≡ ok tt) × (a ≡ b)
checked g (ok u) h = (refl, ground arith)
checked g (err e) h = cc

pub check_min_iff :
    (g : GroupId) (n : ℕ) (o : Option ℕ)
    → (check_min g n o ≡ ok tt) ↔ ((k : ℕ) → o ≡ some k → k ≤ n)
unfolding check_min
check_min_iff g n none = (λ _ k e. cc, λ _. refl)
check_min_iff g n (some m) = (λ h k e. ground arith, λ h. let le = h m refl in ground arith)

pub check_max_iff :
    (g : GroupId) (n : ℕ) (o : Option ℕ)
    → (check_max g n o ≡ ok tt) ↔ ((k : ℕ) → o ≡ some k → n ≤ k)
unfolding check_max
check_max_iff g n none = (λ _ k e. cc, λ _. refl)
check_max_iff g n (some m) = (λ h k e. ground arith, λ h. let le = h m refl in ground arith)

pub check_count_iff :
    (g : GroupId) (n : ℕ) (o : Option ℕ)
    → (check_count g n o ≡ ok tt) ↔ ((k : ℕ) → o ≡ some k → n ≡ k)
unfolding check_count
check_count_iff g n none = (λ _ k e. cc, λ _. refl)
check_count_iff g n (some m) = (λ h k e. ground arith, λ h. let le = h m refl in ground arith)

pub contains-group_ids :
    (g : GroupId) (ds : List InputDescriptor) (id : String)
    → contains (group_ids g ds) id ≡ any (λ d. d.id == id && contains d.groups g) ds
unfolding group_ids
contains-group_ids g [] id = refl
contains-group_ids g (d ∷ ds) id = ground (arith, contains-group_ids g ds id)

pub count_if-ap :
    {A : Type 0} (p q : A → Bool) (xs : List A)
    → ((a : A) → p a ≡ q a)
    → count_if p xs ≡ count_if q xs
unfolding count_if
count_if-ap p q [] h = refl
count_if-ap p q (x ∷ xs) h = rw (h x, count_if-ap p q xs h) refl

pub missing_loop_iff :
    (ids : List String) (d : Dict String (List ℕ))
    → (missing_loop ids d ≡ ok tt)
      ↔ ((id : String) → contains ids id ≡ true → Dict.contains_key id d ≡ true)
unfolding missing_loop
missing_loop_iff [] d = (λ _ id h. cc, λ _. refl)
missing_loop_iff (i ∷ ids) d = (
  λ h id k. elim (Bool-cases (i == id)) [
    | inl same ↦ let e = (string_eq.beq_iff i id).0 same in rw (← e) (ground (arith, h))
    | inr differ ↦ (missing_loop_iff ids d).0 (ground (arith, h)) id (rw differ at k)
  ],
  λ h.
      let here = h i (rw (beq_refl i) refl) in
      rw (here, (missing_loop_iff ids d).1 (λ id k. h id (ground (arith, k)))) refl,
)

contains_key-lookup :
    {V : Type 0} (key : String) (d : Dict String V)
    → Dict.contains_key key d ≡ is_some (Dict.lookup key d)
unfolding Dict.contains_key Dict.lookup
contains_key-lookup key [] = refl
contains_key-lookup key ((k, v) ∷ d) = ground (arith, contains_key-lookup key d)

module _ {T : Type 0} where
  pub contains_key-index_from :
      (inputs : List (DecodedInput T)) (id : String)
      → Dict.contains_key id (index_from 0 [] inputs) ≡ has_input inputs id
  contains_key-index_from inputs id =
      rw (contains_key-lookup, lookup-index_from_zero)
        (elim (Bool-cases (has_input inputs id)) [ inl h ↦ rw h refl | inr h ↦ rw h refl ])

  pub none_or_empty-lookup :
      (inputs : List (DecodedInput T)) (id : String)
      → none_or_empty (Dict.lookup id (index_from 0 [] inputs)) ≡ not (has_input inputs id)
  none_or_empty-lookup inputs id =
      let e = is_empty-positions 0 id inputs in
      rw (lookup-index_from_zero inputs id) (elim (Bool-cases (has_input inputs id)) [
        | inl h ↦ rw h (e ∙ ap not h)
        | inr h ↦ rw h refl
      ])
