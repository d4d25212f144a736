-- ===== src/Verifier/Checks/Laws.antt =====
-- Which queries pass the checks.
use openid4vp.Common.{
  ℕ, ◌+◌, ◌≤◌, String, Bool, true, false, not, List, [], ◌∷◌, Option, none, some, Result, ok, err,
  ◌>>=◌, length, contains, ◌==◌, nat_eq, string_eq, if◌then◌else◌, map as vec_map, ◌≡◌, ◌↔◌, refl,
  arith, All, >>-ok_iff, Bool-cases, Option-cases, inl, inr, nat_beq_iff, >>=-eq-ok,
}
use openid4vp.Error.{Error, internal}
use openid4vp.Utils.NonEmpty.{NonEmptyVec}
use openid4vp.Dcql.Authority.{DcqlId}
use openid4vp.Dcql.Query.{Dcql, DcqlCredential, DcqlClaim}
use openid4vp.Verifier.Checks.{
  collect_set, claim_ids, check_claims, check_sets, check_credentials, validate_dcql,
}

-- None of the texts is among `before`, or among the ones in front of it.
abbrev pub Fresh : List String → List String → Type 0
Fresh before [] = Unit
Fresh before (x ∷ xs) = (contains before x ≡ false) × Fresh (x ∷ before) xs

collect_set-le : (set xs : List String) → length (collect_set set xs) ≤ length set + length xs
unfolding collect_set
collect_set-le set [] = omega arith
collect_set-le set (x ∷ xs) = elim (Bool-cases (contains set x)) [
  | inl e ↦ rw e (omega (arith, collect_set-le set xs))
  | inr e ↦ rw e (omega (arith, collect_set-le (x ∷ set) xs))
]

collect_set_iff :
    (set xs : List String) → (length (collect_set set xs) ≡ length set + length xs) ↔ Fresh set xs
unfolding collect_set
collect_set_iff set [] = (λ _. tt, λ _. omega arith)
collect_set_iff set (x ∷ xs) = elim (Bool-cases (contains set x)) [
  | inl e ↦ rw e (λ h. absurd (omega (arith, collect_set-le set xs)), λ (h, _). absurd (cc))
  | inr e ↦ rw e (
    λ h. (refl, (collect_set_iff (x ∷ set) xs).0 (omega arith)),
    λ (_, h). omega (arith, (collect_set_iff (x ∷ set) xs).1 h),
  )
]

-- A test before the rest of a check.
pub guard_iff :
    (b : Bool) (e : Error) (next : Result Error (Unit {0}))
    → ((if not b then err e else next) ≡ ok tt) ↔ ((b ≡ true) × (next ≡ ok tt))
guard_iff true e next = (λ h. (refl, h), λ (_, h). h)
guard_iff false e next = (λ h. absurd (ground arith), λ (h, _). absurd (ground arith))

-- Distinct, as the sizes show.
collect_set-Fresh :
    (xs : List String) (n : ℕ)
    → n ≡ length xs
    → ((length (collect_set [] xs) == n) ≡ true) ↔ Fresh [] xs
collect_set-Fresh xs n e = (
  λ h.
      (collect_set_iff [] xs).0
        (omega (arith, (nat_beq_iff (length (collect_set [] xs)) n).0 h, e)),
  λ h.
      (nat_beq_iff (length (collect_set [] xs)) n).1
        (omega (arith, (collect_set_iff [] xs).1 h, e)),
)

-- Every claim has an identifier, and these are the texts.
abbrev pub HaveIds : List DcqlClaim → List String → Type 0
HaveIds [] ids = ids ≡ []
HaveIds (c ∷ cs) ids =
    (id : DcqlId) × (rest : List String) × (c.id ≡ some id)
    × (ids ≡ id.text ∷ rest)
    × HaveIds cs rest

claim_ids_iff :
    (claims : List DcqlClaim) (ids : List String) → (claim_ids claims ≡ ok ids) ↔ HaveIds claims ids
unfolding claim_ids
claim_ids_iff [] ids = (λ h. cc, λ h. cc)
claim_ids_iff (c ∷ cs) ids = elim (Option-cases c.id) [
  | inl e ↦ rw e (λ h. absurd (ground arith), λ (id, rest, h, _, _). absurd (ground arith))
  | inr (id, e) ↦ (
    λ h.
        let k : (claim_ids cs >>= λ r. ok (id.text ∷ r)) ≡ ok ids = ground arith in
        let (rest, read, same) = >>=-eq-ok (claim_ids cs) (λ r. ok (id.text ∷ r)) k in
        (id, rest, e, ground arith, (claim_ids_iff cs rest).0 read),
    λ (id', rest, e', same, have). let read = (claim_ids_iff cs rest).1 have in ground arith,
  )
]

length-HaveIds :
    (claims : List DcqlClaim) (ids : List String) → HaveIds claims ids → length claims ≡ length ids
length-HaveIds [] ids h = rw h refl
length-HaveIds (c ∷ cs) ids (id, rest, e, same, h) =
    rw same (omega (arith, length-HaveIds cs rest h))

-- The claims of a credential with claim sets: each has an identifier, and no two the same.
abbrev pub ClaimsIdentified : List DcqlClaim → Type 0
ClaimsIdentified claims = (ids : List String) × HaveIds claims ids × Fresh [] ids

check_claims_iff :
    (claims : List DcqlClaim) → (check_claims claims ≡ ok tt) ↔ ClaimsIdentified claims
unfolding check_claims
check_claims_iff claims = (
  λ h.
      let (ids, read, k) = >>=-eq-ok (claim_ids claims) _ h in
      let have = (claim_ids_iff claims ids).0 read in
      (
        ids,
        have,
        (collect_set-Fresh ids (length claims) (length-HaveIds claims ids have)).0
            ((guard_iff (length (collect_set [] ids) == length claims) _ (ok tt)).0 k).0,
      ),
  λ (ids, have, fresh).
      rw (check_claims, (claim_ids_iff claims ids).1 have)
        ((guard_iff (length (collect_set [] ids) == length claims) _ (ok tt)).1
          ((collect_set-Fresh ids (length claims) (length-HaveIds claims ids have)).1 fresh, refl)),
)

-- Claim sets are given only with claims that they can name.
abbrev pub SetsFit :
    Option (NonEmptyVec DcqlClaim) → Option (NonEmptyVec (NonEmptyVec String)) → Type 0
SetsFit (some claims) (some sets) = ClaimsIdentified claims.vec
SetsFit none (some sets) = ⊥
SetsFit _ none = Unit

check_sets_iff :
    (claims : Option (NonEmptyVec DcqlClaim)) (sets : Option (NonEmptyVec (NonEmptyVec String)))
    → (check_sets claims sets ≡ ok tt) ↔ SetsFit claims sets
unfolding check_sets
check_sets_iff (some claims) (some sets) = check_claims_iff claims.vec
check_sets_iff none (some sets) = (λ h. absurd (ground arith), λ h. absurd h)
check_sets_iff none none = (λ h. tt, λ h. refl)
check_sets_iff (some claims) none = (λ h. tt, λ h. refl)

check_credentials_iff :
    (cs : List DcqlCredential)
    → (check_credentials cs ≡ ok tt)
      ↔ All (λ (c : DcqlCredential). SetsFit c.claims c.claim_sets) cs
unfolding check_credentials
check_credentials_iff [] = (λ _. tt, λ _. refl)
check_credentials_iff (c ∷ cs) = (
  λ h.
      let (one, others) =
        (>>-ok_iff (check_sets c.claims c.claim_sets) (check_credentials cs)).0 h in
      ((check_sets_iff c.claims c.claim_sets).0 one, (check_credentials_iff cs).0 others),
  λ (one, others).
      (>>-ok_iff (check_sets c.claims c.claim_sets) (check_credentials cs)).1
        ((check_sets_iff c.claims c.claim_sets).1 one, (check_credentials_iff cs).1 others),
)

abbrev pub ids : List DcqlCredential → List String
ids = vec_map (λ (c : DcqlCredential). c.id.text)

length-ids : (cs : List DcqlCredential) → length cs ≡ length (ids cs)
length-ids [] = refl
length-ids (c ∷ cs) = omega (arith, length-ids cs)

-- A query passes exactly when no two of its credentials have the same identifier and, for each
-- credential with claim sets, there are claims, each with an identifier and no two with the same.
pub validate_dcql_iff :
    (dcql : Dcql)
    → (validate_dcql dcql ≡ ok tt) ↔ (
        Fresh [] (ids dcql.credentials.vec)
        × All (λ (c : DcqlCredential). SetsFit c.claims c.claim_sets) dcql.credentials.vec)
unfolding validate_dcql
validate_dcql_iff dcql =
    let cs = dcql.credentials.vec in
    let unique = collect_set-Fresh (ids cs) (length cs) (length-ids cs) in
    let guard =
      guard_iff (length (collect_set [] (ids cs)) == length cs)
        (internal ("Credential IDs must be unique in the dcql query" ∷ []))
        (check_credentials cs) in
    (
      λ h. (unique.0 (guard.0 h).0, (check_credentials_iff cs).0 (guard.0 h).1),
      λ (fresh, fit). guard.1 (unique.1 fresh, (check_credentials_iff cs).1 fit),
    )
