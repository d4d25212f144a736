-- ===== src/Utils/NonEmpty.antt =====
-- utils.rs: `NonEmptyVec<T>(Vec<T>)`, whose constructors see to it that the list has an item.
use openid4vp.Common.{
  List, [], ◌∷◌, map as vec_map, Result, ok, err, Anyhow, push as vec_push, to_option, push-ne-nil,
  Option, ◌≡◌, ◌≢◌, arith,
}

pub record NonEmptyVec {ℓ} (A : Type ℓ) : Type ℓ where
  pub vec : List A

module _ {ℓ} {A : Type ℓ} where
  unfoldable pub new : A → NonEmptyVec A
  new t = record { vec = t ∷ [] }

  -- `TryFrom<Vec<T>>`
  unfoldable pub try_from : List A → Result Anyhow (NonEmptyVec A)
  try_from [] = err ("cannot create a NonEmptyVec from an empty Vec" ∷ [])
  try_from (x ∷ xs) = ok (record { vec = x ∷ xs })

  unfoldable pub maybe_new : List A → Option (NonEmptyVec A)
  unfolding try_from
  maybe_new v = to_option (try_from v)

  unfoldable pub push : NonEmptyVec A → A → NonEmptyVec A
  push v t = record { vec = vec_push v.vec t }

  unfoldable pub map {κ} : {B : Type κ} → (A → B) → NonEmptyVec A → NonEmptyVec B
  map f v = record { vec = vec_map f v.vec }

  abbrev pub IsNonEmpty : NonEmptyVec A → Type ℓ
  IsNonEmpty v = v.vec ≢ []

  pub try_from-IsNonEmpty :
      (xs : List A) (v : NonEmptyVec A) → try_from xs ≡ ok v → IsNonEmpty v × (v.vec ≡ xs)
  unfolding try_from
  try_from-IsNonEmpty [] v h = ground arith
  try_from-IsNonEmpty (x ∷ xs) v h = ground arith

  pub push-IsNonEmpty : (v : NonEmptyVec A) (t : A) → IsNonEmpty (push v t)
  unfolding push
  push-IsNonEmpty v t = push-ne-nil v.vec t
