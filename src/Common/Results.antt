-- ===== src/Common/Results.antt =====
-- `Result`, with the combinators of the standard library and of `anyhow` that the code calls.
use Prim.Native.String.{String}
use mathlib.Core.Path.{◌≡◌, refl}
use mathlib.Core.Logic.{◌↔◌, ◌⊎◌, inl, inr}
use mathlib.Core.Bool.{Bool, true, false}
use mathlib.Core.Option.{Option, none, some}
use mathlib.Core.List.{List, [], ◌∷◌}

pub data Result {ℓ κ} (E : Type ℓ) (A : Type κ) : Type (ℓ ⊔ κ) where
  ok : A → Result E A
  err : E → Result E A

-- An `anyhow::Error`: its messages, the outermost context first.
abbrev pub Anyhow : Type 0
Anyhow = List String

-- The `?` operator, at one error type.
infixl 5 ◌>>=◌ ◌>>◌
abbrev pub ◌>>=◌ {ℓ κ η} :
    {E : Type ℓ} {A : Type κ} {B : Type η} → Result E A → (A → Result E B) → Result E B
ok a >>= f = f a
err e >>= f = err e

abbrev pub ◌>>◌ {ℓ κ} : {E : Type ℓ} {B : Type κ} → Result E (Unit {0}) → Result E B → Result E B
m >> k = m >>= λ _. k

abbrev pub map_err {ℓ κ η} :
    {E : Type ℓ} {F : Type κ} {A : Type η} → (E → F) → Result E A → Result F A
map_err f (ok a) = ok a
map_err f (err e) = err (f e)

abbrev pub map_ok {ℓ κ η} :
    {E : Type ℓ} {A : Type κ} {B : Type η} → (A → B) → Result E A → Result E B
map_ok f (ok a) = ok (f a)
map_ok f (err e) = err e

-- `Option::ok_or_else`
abbrev pub ok_or {ℓ κ} : {E : Type ℓ} {A : Type κ} → E → Option A → Result E A
ok_or e none = err e
ok_or e (some a) = ok a

-- `Context::context` on a `Result`
abbrev pub context {ℓ} : {A : Type ℓ} → String → Result Anyhow A → Result Anyhow A
context message = map_err (λ e. message ∷ e)

-- `Context::context` on an `Option`
abbrev pub option_context {ℓ} : {A : Type ℓ} → String → Option A → Result Anyhow A
option_context message = ok_or (message ∷ [])

-- `Option::transpose`
abbrev pub transpose {ℓ κ} : {E : Type ℓ} {A : Type κ} → Option (Result E A) → Result E (Option A)
transpose none = ok none
transpose (some (ok a)) = ok (some a)
transpose (some (err e)) = err e

-- `Option::is_some`
abbrev pub is_some {ℓ} : {A : Type ℓ} → Option A → Bool
is_some none = false
is_some (some a) = true

-- `Result::ok`
abbrev pub to_option {ℓ κ} : {E : Type ℓ} {A : Type κ} → Result E A → Option A
to_option (ok a) = some a
to_option (err e) = none

-- `Result::unwrap_or`
abbrev pub result_or {ℓ κ} : {E : Type ℓ} {A : Type κ} → A → Result E A → A
result_or d (ok a) = a
result_or d (err e) = d

abbrev pub IsOk {ℓ κ} : {E : Type ℓ} {A : Type κ} → Result E A → Type (ℓ ⊔ κ)
IsOk {A} r = (a : A) × (r ≡ ok a)

module _ {ℓ κ} {E : Type ℓ} {A : Type κ} where
  pub Result-cases : (r : Result E A) → ((a : A) × (r ≡ ok a)) ⊎ ((e : E) × (r ≡ err e))
  Result-cases (ok a) = inl (a, refl)
  Result-cases (err e) = inr (e, refl)

  -- Inversion of a successful `?`.
  pub >>=-eq-ok {η} :
      {B : Type η} (r : Result E A) (next : A → Result E B) {b : B}
      → (r >>= next) ≡ ok b
      → (a : A) × (r ≡ ok a) × (next a ≡ ok b)
  >>=-eq-ok (ok a) next h = (a, refl, h)
  >>=-eq-ok (err e) next h = cc

  -- A failure of either step.
  pub >>=-eq-err {η} :
      {B : Type η} (r : Result E A) (next : A → Result E B) {e : E}
      → (r >>= next) ≡ err e
      → (r ≡ err e) ⊎ ((a : A) × (next a ≡ err e))
  >>=-eq-err (ok a) next h = inr (a, h)
  >>=-eq-err (err c) next h = inl (cc)

-- A chain of checks accepts when each of them does.
pub >>-ok_iff {ℓ} :
    {E : Type ℓ} (m k : Result E (Unit {0})) → ((m >> k) ≡ ok tt) ↔ ((m ≡ ok tt) × (k ≡ ok tt))
>>-ok_iff (ok u) k = (λ h. (refl, h), λ (_, h). h)
>>-ok_iff (err e) k = (λ h. cc, λ (h, _). cc)
