-- ===== src/PresentationSubmission/Grouping/Laws.antt =====
-- The index of the inputs by their descriptor.
use mathlib.Core.Option as O
use mathlib.Core.List.{append_assoc}
use openid4vp.Common.{
  ℕ, zero, suc, ◌+◌, ◌<◌, String, List, [], ◌∷◌, ◌++◌, push, get_elem?, is_empty, Option, none,
  some, string_eq, ◌≡◌, refl, ap, ◌↔◌, inl, inr, arith, All, ◌==◌, Bool, not, true, false,
  if◌then◌else◌, contains, nat_eq, any, Bool-cases, Option-cases,
}
use openid4vp.Common.Dict
use openid4vp.Common.Dict.{Dict}
use openid4vp.PresentationSubmission.Types.{DecodedInput}
use openid4vp.PresentationSubmission.Grouping.{entry_push, index_from}

module _ {T : Type 0} where
  -- There is an input at the index, and it is one for that descriptor.
  abbrev pub Points : List (DecodedInput T) → ℕ → String → Type 0
  Points claims i key =
      (c : DecodedInput T) × (get_elem? claims i ≡ some c) × (c.descriptor_id ≡ key)

  -- Every entry of a group holds indices below `n` of inputs for its descriptor.
  abbrev pub IsGrouped : ℕ → List (DecodedInput T) → Dict String (List ℕ) → Type 0
  IsGrouped n claims d = All (λ e. All (λ j. (j < n) × Points claims j e.0) e.1) d

  -- The indices of the inputs for one descriptor, counted from `n`.
  pub positions : ℕ → String → List (DecodedInput T) → List ℕ
  positions n key [] = []
  positions n key (c ∷ cs) =
      let rest = positions (suc n) key cs in if c.descriptor_id == key then n ∷ rest else rest

merge : Option (List ℕ) → List ℕ → Option (List ℕ)
merge o [] = o
merge none ps = some ps
merge (some js) ps = some (js ++ ps)

merge-push :
    (o : Option (List ℕ)) (n : ℕ) (ps : List ℕ)
    → merge (some (push (O.get_or o []) n)) ps ≡ merge o (n ∷ ps)
unfolding merge
merge-push none n [] = refl
merge-push none n (p ∷ ps) = refl
merge-push (some js) n [] = refl
merge-push (some js) n (p ∷ ps) = ap some (append_assoc js (n ∷ []) (p ∷ ps))

get_or-merge : (ps : List ℕ) → O.get_or (merge none ps) [] ≡ ps
unfolding merge
get_or-merge [] = refl
get_or-merge (p ∷ ps) = refl

merge-none :
    (b : Bool) (ps : List ℕ) → is_empty ps ≡ not b → merge none ps ≡ (if b then some ps else none)
unfolding merge
merge-none true [] h = cc
merge-none false [] h = refl
merge-none true (p ∷ ps) h = refl
merge-none false (p ∷ ps) h = cc

module _ {T : Type 0} where
  lookup-index_from :
      (n : ℕ) (key : String) (d : Dict String (List ℕ)) (inputs : List (DecodedInput T))
      → Dict.lookup key (index_from n d inputs) ≡ merge (Dict.lookup key d) (positions n key inputs)
  unfolding index_from positions merge entry_push
  lookup-index_from n key d [] = refl
  lookup-index_from n key d (c ∷ cs) =
      rw (lookup-index_from (suc n) key (entry_push c.descriptor_id n d) cs)
        (elim (Bool-cases (c.descriptor_id == key)) [
          | inl same ↦
              let e = (string_eq.beq_iff c.descriptor_id key).0 same in
              rw (Dict.lookup-insert, same)
                (rw e (merge-push (Dict.lookup key d) n (positions (suc n) key cs)))
          | inr differ ↦ rw (Dict.lookup-insert, differ)
        ])

  -- Is the input at the index one for that descriptor?
  abbrev is_at : List (DecodedInput T) → ℕ → String → Bool
  is_at claims i key = elim (get_elem? claims i) [ none ↦ false | some c ↦ c.descriptor_id == key ]

  is_at_iff :
      (claims : List (DecodedInput T)) (i : ℕ) (key : String)
      → (is_at claims i key ≡ true) ↔ Points claims i key
  is_at_iff claims i key = (
    λ h. elim (Option-cases (get_elem? claims i)) [
      | inl e ↦ ground arith
      | inr (c, e) ↦ (c, e, (string_eq.beq_iff c.descriptor_id key).0 (ground arith))
    ],
    λ (c, e, k). rw (e, is_at) ((string_eq.beq_iff c.descriptor_id key).1 k),
  )

  below-positions :
      (n i : ℕ) (key : String) (inputs : List (DecodedInput T))
      → i < n
      → contains (positions n key inputs) i ≡ false
  unfolding positions
  below-positions n i key [] h = refl
  below-positions n i key (c ∷ cs) h = ground (arith, below-positions (suc n) i key cs)

  contains-positions :
      (n i : ℕ) (key : String) (inputs : List (DecodedInput T))
      → contains (positions n key inputs) (n + i) ≡ is_at inputs i key
  unfolding positions
  contains-positions n i key [] = refl
  contains-positions n zero key (c ∷ cs) =
      let e : n + 0 ≡ n = omega arith in rw e (ground (arith, below-positions (suc n) n key cs))
  contains-positions n (suc i) key (c ∷ cs) =
      let e : n + suc i ≡ suc n + i = omega arith in
      rw e (ground (arith, contains-positions (suc n) i key cs))

  positions_of_index :
      (inputs : List (DecodedInput T)) (key : String)
      → O.get_or (Dict.lookup key (index_from 0 [] inputs)) [] ≡ positions 0 key inputs
  unfolding Dict.lookup
  positions_of_index inputs key =
      rw (lookup-index_from 0 key [] inputs) (get_or-merge (positions 0 key inputs))

  -- The index maps a descriptor to exactly the indices of the inputs for it.
  pub index_from_iff :
      (inputs : List (DecodedInput T)) (i : ℕ) (key : String)
      → (contains (O.get_or (Dict.lookup key (index_from 0 [] inputs)) []) i ≡ true)
        ↔ Points inputs i key
  index_from_iff inputs i key =
      let e : 0 + i ≡ i = omega arith in
      let same = rw e at (contains-positions 0 i key inputs) in
      rw (positions_of_index inputs key, same) (is_at_iff inputs i key)

  pub is_empty-positions :
      (n : ℕ) (key : String) (inputs : List (DecodedInput T))
      → is_empty (positions n key inputs) ≡ not (any (λ c. c.descriptor_id == key) inputs)
  unfolding positions
  is_empty-positions n key [] = refl
  is_empty-positions n key (c ∷ cs) = ground (arith, is_empty-positions (suc n) key cs)

  -- A descriptor has an entry in the index exactly when some input is for it.
  pub lookup-index_from_zero :
      (inputs : List (DecodedInput T)) (key : String)
      → Dict.lookup key (index_from 0 [] inputs)
        ≡ (if any (λ c. c.descriptor_id == key) inputs then some (positions 0 key inputs) else none)
  unfolding Dict.lookup
  lookup-index_from_zero inputs key =
      rw (lookup-index_from 0 key [] inputs)
        (merge-none _ (positions 0 key inputs) (is_empty-positions 0 key inputs))
