-- ===== src/PresentationSubmission/Grouping.antt =====
-- core/presentation_submission.rs: indices of inputs, grouped by the input descriptor.
pub mod Laws
pub mod Valid
use mathlib.Core.Option as O
use openid4vp.Common.{
  ℕ, suc, String, List, [], ◌∷◌, push, get_elem?, Option, none, some, Result, ok, err, string_eq,
}
use openid4vp.Common.Dict
use openid4vp.Common.Dict.{Dict}
use openid4vp.PresentationSubmission.Types.{DecodedInput, Fault, panicked}

-- `map.entry(key).or_default().push(i)`
unfoldable pub entry_push : String → ℕ → Dict String (List ℕ) → Dict String (List ℕ)
unfolding Dict.insert Dict.lookup
entry_push key i d = Dict.insert key (push (O.get_or (Dict.lookup key d) []) i) d

module _ {T : Type 0} where
  unfoldable pub group_from :
      Dict String (List ℕ) → List (DecodedInput T) → List ℕ → Result Fault (Dict String (List ℕ))
  group_from d claims [] = ok d
  group_from d claims (i ∷ is) = elim (get_elem? claims i) [
    | none ↦ err panicked
    | some claim ↦ group_from (entry_push claim.descriptor_id i d) claims is
  ]

  -- Reading `claims[i]` panics where there is no such claim.
  unfoldable pub group_by_input_descriptor :
      List (DecodedInput T) → List ℕ → Result Fault (Dict String (List ℕ))
  unfolding group_from entry_push
  group_by_input_descriptor claims indexes = group_from [] claims indexes

  -- The loop over `inputs.iter().enumerate()`, from the n-th input on.
  unfoldable pub index_from :
      ℕ → Dict String (List ℕ) → List (DecodedInput T) → Dict String (List ℕ)
  unfolding entry_push
  index_from n d [] = d
  index_from n d (input ∷ inputs) = index_from (suc n) (entry_push input.descriptor_id n d) inputs
