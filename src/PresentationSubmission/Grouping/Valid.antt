-- ===== src/PresentationSubmission/Grouping/Valid.antt =====
-- The grouping of valid indices.
use mathlib.Core.Option as O
use openid4vp.Common.{
  ℕ, zero, suc, ◌<◌, String, List, [], ◌∷◌, ◌++◌, push, get_elem?, length, some, ok, string_eq, ◌≡◌,
  refl, ◌⊎◌, inl, inr, ap, arith, All, All-mono, All-append, ◌==◌, Bool-cases,
}
use openid4vp.Common.Dict
use openid4vp.Common.Dict.{Dict}
use openid4vp.PresentationSubmission.Types.{DecodedInput}
use openid4vp.PresentationSubmission.Grouping.{entry_push, group_from}
use openid4vp.PresentationSubmission.Grouping.Laws.{Points, IsGrouped}

module _ {ℓ} {A : Type ℓ} where
  get_elem?-append :
      (xs ys : List A) (i : ℕ) {a : A} → get_elem? xs i ≡ some a → get_elem? (xs ++ ys) i ≡ some a
  get_elem?-append [] ys i h = cc
  get_elem?-append (x ∷ xs) ys zero h = h
  get_elem?-append (x ∷ xs) ys (suc i) h = get_elem?-append xs ys i h

  pub get_elem?-push_self : (xs : List A) (a : A) → get_elem? (push xs a) (length xs) ≡ some a
  get_elem?-push_self [] a = refl
  get_elem?-push_self (x ∷ xs) a = get_elem?-push_self xs a

  -- An item of a list that was pushed to is an old one, or the new one at the end.
  pub get_elem?-push_cases :
      (xs : List A) (a : A) (i : ℕ) {b : A}
      → get_elem? (push xs a) i ≡ some b
      → (get_elem? xs i ≡ some b) ⊎ ((i ≡ length xs) × (b ≡ a))
  get_elem?-push_cases [] a zero h = inr (refl, ground arith)
  get_elem?-push_cases [] a (suc i) h = cc
  get_elem?-push_cases (x ∷ xs) a zero h = inl h
  get_elem?-push_cases (x ∷ xs) a (suc i) h = elim (get_elem?-push_cases xs a i h) [
    | inl old ↦ inl old
    | inr (e, same) ↦ inr (ap suc e, same)
  ]

  pub get_elem?-lt : (xs : List A) (i : ℕ) {a : A} → get_elem? xs i ≡ some a → i < length xs
  get_elem?-lt [] i h = cc
  get_elem?-lt (x ∷ xs) zero h = omega arith
  get_elem?-lt (x ∷ xs) (suc i) h = omega (arith, get_elem?-lt xs i h)

module _ {T : Type 0} where
  pub Points-append :
      (xs ys : List (DecodedInput T)) (i : ℕ) (key : String)
      → Points xs i key
      → Points (xs ++ ys) i key
  Points-append xs ys i key (c, at, same) = (c, get_elem?-append xs ys i at, same)

  pub IsGrouped-append :
      (n : ℕ) (xs ys : List (DecodedInput T)) (d : Dict String (List ℕ))
      → IsGrouped n xs d
      → IsGrouped n (xs ++ ys) d
  IsGrouped-append n xs ys d =
      All-mono d (λ e. All-mono e.1 (λ j (below, p). (below, Points-append xs ys j e.0 p)))

  module _ (n : ℕ) (claims : List (DecodedInput T)) where
    abbrev Entry : String × List ℕ → Type 0
    Entry e = All (λ j. (j < n) × Points claims j e.0) e.1

    lookup-Entry :
        (key : String) (d : Dict String (List ℕ))
        → All Entry d
        → Entry (key, O.get_or (Dict.lookup key d) [])
    unfolding Dict.lookup
    lookup-Entry key [] h = tt
    lookup-Entry key ((k, js) ∷ d) (h, hs) = elim (Bool-cases (k == key)) [
      | inl same ↦ rw (same, ← (string_eq.beq_iff k key).0 same) h
      | inr differ ↦ rw differ (lookup-Entry key d hs)
    ]

    insert-Entry :
        (key : String) (js : List ℕ) (d : Dict String (List ℕ))
        → Entry (key, js)
        → All Entry d
        → All Entry (Dict.insert key js d)
    unfolding Dict.insert
    insert-Entry key js [] h hs = (h, tt)
    insert-Entry key js ((k, ks) ∷ d) h (g, gs) = elim (Bool-cases (k == key)) [
      | inl same ↦ rw (same, (string_eq.beq_iff k key).0 same) (h, gs)
      | inr differ ↦ rw differ (g, insert-Entry key js d h gs)
    ]

    entry_push-Entry :
        (key : String) (i : ℕ) (d : Dict String (List ℕ))
        → (i < n) × Points claims i key
        → All Entry d
        → All Entry (entry_push key i d)
    unfolding entry_push
    entry_push-Entry key i d p h =
        insert-Entry key (push (O.get_or (Dict.lookup key d) []) i) d
          (All-append (λ j. (j < n) × Points claims j key) (O.get_or (Dict.lookup key d) [])
            (i ∷ []) (lookup-Entry key d h) (p, tt))
          h

    -- Indices of inputs for one descriptor are grouped without a panic.
    pub group_from-IsGrouped :
        (d : Dict String (List ℕ)) (indexes : List ℕ) (key : String)
        → IsGrouped n claims d
        → All (λ j. (j < n) × Points claims j key) indexes
        → (grouped : Dict String (List ℕ)) × (group_from d claims indexes ≡ ok grouped)
          × IsGrouped n claims grouped
    unfolding group_from
    group_from-IsGrouped d [] key h _ = (d, refl, h)
    group_from-IsGrouped d (i ∷ is) key h ((below, p), ps) =
        rw (group_from, p.1)
          (group_from-IsGrouped (entry_push p.0.descriptor_id i d) is key
            (entry_push-Entry p.0.descriptor_id i d (below, (p.0, p.1, refl)) h) ps)
