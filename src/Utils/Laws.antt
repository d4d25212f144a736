-- ===== src/Utils/Laws.antt =====
-- When two lists share an item.
use openid4vp.Common.{
  ◌≡◌, ◌↔◌, true, Bool-cases, inl, inr, List, [], ◌∷◌, Eq, contains, beq_refl, arith,
}
use openid4vp.Utils.{contains_any}

module _ {ℓ} {A : Type ℓ} ⦃e : Eq A⦄ where
  -- An item that both lists hold.
  abbrev pub Shares : List A → List A → Type ℓ
  Shares xs ys = (a : A) × (contains xs a ≡ true) × (contains ys a ≡ true)

  contains_any_sound : (large small : List A) → contains_any large small ≡ true → Shares large small
  unfolding contains_any
  contains_any_sound large [] h = ground arith
  contains_any_sound large (x ∷ xs) h = elim (Bool-cases (contains large x)) [
    | inl found ↦ (x, found, ground (arith, beq_refl x))
    | inr missing ↦
        let (a, here, there) = contains_any_sound large xs (ground arith) in (a, here, ground arith)
  ]

  contains_any_complete :
      (large small : List A) (a : A)
      → contains large a ≡ true
      → contains small a ≡ true
      → contains_any large small ≡ true
  unfolding contains_any
  contains_any_complete large [] a h k = k
  contains_any_complete large (x ∷ xs) a h k =
      ground (arith, e.beq_iff x a, contains_any_complete large xs a h)

  pub contains_any_iff :
      (large small : List A) → (contains_any large small ≡ true) ↔ Shares large small
  contains_any_iff large small =
      (contains_any_sound large small, λ (a, h, k). contains_any_complete large small a h k)
