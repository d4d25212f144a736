-- ===== src/PresentationSubmission/Find/Grown.antt =====
-- Inputs that grow, and what holds of a result that is no panic.
use mathlib.Core.List.{append_assoc, append-nil}
use openid4vp.Common.{
  ℕ, String, List, [], ◌∷◌, ◌++◌, push, get_elem?, length, Option, none, some, Result, ok, err,
  ◌>>=◌, map_err, ok_or, string_eq, ◌≡◌, refl, ap, sym, ◌∙◌, inl, inr,
}
use openid4vp.CredentialFormat.Designation.{designation_eq}
use openid4vp.PresentationSubmission.Types.{DecodedInput, Fault, failed, panicked, SubmissionError}
use openid4vp.PresentationSubmission.Grouping.Laws.{Points, IsGrouped}
use openid4vp.PresentationSubmission.Grouping.Valid.{
  get_elem?-push_cases, Points-append, IsGrouped-append,
}

-- What holds of the result, where there is one; a failure is allowed, a panic is not.
abbrev pub Post : {A : Type 0} → (A → Type 0) → Result Fault A → Type 0
Post P (ok a) = P a
Post P (err (failed e)) = Unit
Post P (err panicked) = ⊥

pub Post-bind :
    {A B : Type 0} (P : A → Type 0) (Q : B → Type 0) (r : Result Fault A) (f : A → Result Fault B)
    → Post P r
    → ((a : A) → P a → Post Q (f a))
    → Post Q (r >>= f)
Post-bind P Q (ok a) f h k = k a h
Post-bind P Q (err (failed e)) f h k = tt
Post-bind P Q (err panicked) f h k = elim h [ ]

pub Post-failed {ℓ} :
    {A : Type 0} {E : Type ℓ} (P : A → Type 0) (g : E → SubmissionError) (r : Result E A)
    → ((a : A) → r ≡ ok a → P a)
    → Post P (map_err (λ e. failed (g e)) r)
Post-failed P g (ok a) k = k a refl
Post-failed P g (err e) k = tt

pub Post-ok_or :
    {A : Type 0} (e : SubmissionError) (o : Option A) → Post (λ a. o ≡ some a) (ok_or (failed e) o)
Post-ok_or e none = tt
Post-ok_or e (some a) = refl

-- The inputs are kept, and inputs are added behind them.
pub record Grown {T : Type 0} (xs ys : List (DecodedInput T)) : Type 0 where
  pub more : List (DecodedInput T)
  pub grown : ys ≡ xs ++ more

module _ {T : Type 0} where
  pub Grown-refl : (xs : List (DecodedInput T)) → Grown xs xs
  Grown-refl xs = record { more = []; grown = sym (append-nil xs) }

  pub Grown-trans : {xs ys zs : List (DecodedInput T)} → Grown xs ys → Grown ys zs → Grown xs zs
  Grown-trans {xs} g h = record {
    more = g.more ++ h.more;
    grown = h.grown ∙ ap (λ l. l ++ h.more) g.grown ∙ append_assoc xs g.more h.more;
  }

  pub Points-Grown :
      (xs ys : List (DecodedInput T)) (i : ℕ) (key : String)
      → Grown xs ys
      → Points xs i key
      → Points ys i key
  Points-Grown xs ys i key g p = rw g.grown (Points-append xs g.more i key p)

  -- Every input holds, as nested, indices of inputs that stand before it.
  abbrev pub IsWellFounded : List (DecodedInput T) → Type 0
  IsWellFounded inputs =
      (i : ℕ) (c : DecodedInput T) → get_elem? inputs i ≡ some c → IsGrouped i inputs c.nested

  pub push-IsWellFounded :
      (inputs : List (DecodedInput T)) (c : DecodedInput T)
      → IsWellFounded inputs
      → IsGrouped (length inputs) inputs c.nested
      → IsWellFounded (push inputs c)
  push-IsWellFounded inputs c h g i b at = elim (get_elem?-push_cases inputs c i at) [
    | inl old ↦ IsGrouped-append i inputs (c ∷ []) b.nested (h i b old)
    | inr (e, same) ↦ rw (e, same) (IsGrouped-append (length inputs) inputs (c ∷ []) c.nested g)
  ]

  pub push-Grown :
      (inputs : List (DecodedInput T)) (c : DecodedInput T) → Grown inputs (push inputs c)
  push-Grown inputs c = record { more = c ∷ []; grown = refl }
