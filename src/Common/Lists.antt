-- ===== src/Common/Lists.antt =====
-- Lists: lengths over the native numbers, and the iterator methods `any`, `all` and `find`.
use Prim.Native.Nat.{ℕ, zero, suc, ◌+◌}
use mathlib.Core.Path.{◌≡◌, refl}
use mathlib.Core.Logic.{◌≢◌, ◌↔◌, inl, inr}
use openid4vp.Common.Equality.{Bool-cases}
use mathlib.Core.Bool.{Bool, true, false, ◌&&◌, ◌||◌}
use mathlib.Core.Option.{Option, none, some}
use mathlib.Core.List.{List, [], ◌∷◌, ◌++◌, Memᴰ}
use native.Mathlib.Omega.{arith}

module _ {ℓ} {A : Type ℓ} where
  abbrev pub length : List A → ℕ
  length [] = 0
  length (x ∷ xs) = suc (length xs)

  abbrev pub get_elem? : List A → ℕ → Option A
  get_elem? [] i = none
  get_elem? (x ∷ xs) zero = some x
  get_elem? (x ∷ xs) (suc i) = get_elem? xs i

  abbrev pub is_empty : List A → Bool
  is_empty [] = true
  is_empty (x ∷ xs) = false

  abbrev pub any : (A → Bool) → List A → Bool
  any p [] = false
  any p (x ∷ xs) = p x || any p xs

  abbrev pub all : (A → Bool) → List A → Bool
  all p [] = true
  all p (x ∷ xs) = p x && all p xs

  -- `Vec::push`
  abbrev pub push : List A → A → List A
  push xs x = xs ++ (x ∷ [])

  pub push-ne-nil : (xs : List A) (x : A) → push xs x ≢ []
  push-ne-nil [] x h = cc
  push-ne-nil (y ∷ xs) x h = cc

  pub length-append : (xs ys : List A) → length (xs ++ ys) ≡ length xs + length ys
  length-append [] ys = omega arith
  length-append (x ∷ xs) ys = omega (arith, length-append xs ys)

abbrev pub All {ℓ κ} : {A : Type ℓ} → (A → Type κ) → List A → Type κ
All P [] = Unit
All P (x ∷ xs) = P x × All P xs

pub All-append {ℓ κ} :
    {A : Type ℓ} (P : A → Type κ) (xs ys : List A) → All P xs → All P ys → All P (xs ++ ys)
All-append P [] ys _ k = k
All-append P (x ∷ xs) ys (p, h) k = (p, All-append P xs ys h k)

pub All-mono {ℓ κ η} :
    {A : Type ℓ} {P : A → Type κ} {Q : A → Type η} (xs : List A)
    → ((x : A) → P x → Q x)
    → All P xs
    → All Q xs
All-mono [] f _ = tt
All-mono (x ∷ xs) f (p, h) = (f x p, All-mono xs f h)

pub any_of_mem {ℓ} :
    {A : Type ℓ} (p : A → Bool) {a : A} {xs : List A} → Memᴰ a xs → p a ≡ true → any p xs ≡ true
any_of_mem p (Memᴰ.head e) h = ground arith
any_of_mem p (Memᴰ.tail m) h = ground (arith, any_of_mem p m h)

pub mem_of_any {ℓ} :
    {A : Type ℓ} (p : A → Bool) (xs : List A) → any p xs ≡ true → (a : A) × Memᴰ a xs × (p a ≡ true)
mem_of_any p [] h = cc
mem_of_any p (x ∷ xs) h = elim (Bool-cases (p x)) [
  | inl here ↦ (x, Memᴰ.head refl, here)
  | inr later ↦
      let (a, listed, holds) = mem_of_any p xs (rw later at h) in (a, Memᴰ.tail listed, holds)
]

-- What holds of every item, by a test and as a predicate.
pub all_iff {ℓ κ} :
    {A : Type ℓ} {P : A → Type κ} (p : A → Bool)
    → ((a : A) → (p a ≡ true) ↔ P a)
    → (xs : List A) → (all p xs ≡ true) ↔ All P xs
all_iff p e [] = (λ _. tt, λ _. refl)
all_iff p e (x ∷ xs) = (
  λ h. ((e x).0 (ground arith), (all_iff p e xs).0 (ground arith)),
  λ (k, ks). rw ((e x).1 k) ((all_iff p e xs).1 ks),
)
