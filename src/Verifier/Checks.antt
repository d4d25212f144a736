-- ===== src/Verifier/Checks.antt =====
-- verifier/request_builder.rs: the checks of the query of a request.
pub mod Laws
use openid4vp.Common.{
  ℕ, String, Bool, not, List, [], ◌∷◌, Option, none, some, Result, ok, err, ◌>>=◌, ◌>>◌, length,
  is_empty, contains, ◌==◌, nat_eq, string_eq, if◌then◌else◌, map as vec_map,
}
use openid4vp.Error.{Error, internal}
use openid4vp.PresentationDefinition.{PresentationDefinition}
use openid4vp.Utils.NonEmpty.{NonEmptyVec}
use openid4vp.Dcql.Authority.{DcqlId}
use openid4vp.Dcql.Query.{Dcql, DcqlCredential, DcqlClaim}

-- An internal error with one message.
abbrev pub fail {ℓ} : {A : Type ℓ} → String → Result Error A
fail message = err (internal (message ∷ []))

-- `collect::<HashSet<_>>()`, into a set as a list without repetition.
unfoldable pub collect_set : List String → List String → List String
collect_set set [] = set
collect_set set (x ∷ xs) = collect_set (if contains set x then set else x ∷ set) xs

-- The identifiers of the claims, in their order; a claim without one is refused.
unfoldable pub claim_ids : List DcqlClaim → Result Error (List String)
claim_ids [] = ok []
claim_ids (claim ∷ claims) = elim claim.id [
  | none ↦ fail "Claim id cannot be empty if Claim set is given"
  | some id ↦ claim_ids claims >>= λ ids. ok (id.text ∷ ids)
]

-- The identifiers of the claims of a credential, each of which goes into a set.
unfoldable pub check_claims : List DcqlClaim → Result Error (Unit {0})
unfolding claim_ids collect_set
check_claims claims = do
  ids ← claim_ids claims
  if not (length (collect_set [] ids) == length claims)
      then fail "Claim IDs must be unique in the Credential query"
      else ok tt

unfoldable pub check_sets :
    Option (NonEmptyVec DcqlClaim)
    → Option (NonEmptyVec (NonEmptyVec String))
    → Result Error (Unit {0})
unfolding check_claims
check_sets (some claims) (some sets) = check_claims claims.vec
check_sets none (some sets) = fail "Claim set cannot be given if Claims is empty"
check_sets _ none = ok tt

unfoldable pub check_credentials : List DcqlCredential → Result Error (Unit {0})
unfolding check_sets
check_credentials [] = ok tt
check_credentials (c ∷ cs) = check_sets c.claims c.claim_sets >> check_credentials cs

unfoldable pub validate_dcql : Dcql → Result Error (Unit {0})
unfolding collect_set check_credentials
validate_dcql dcql =
    if not (
      length (collect_set [] (vec_map (λ (c : DcqlCredential). c.id.text) dcql.credentials.vec))
      == length dcql.credentials.vec)
    then fail "Credential IDs must be unique in the dcql query"
    else check_credentials dcql.credentials.vec

unfoldable pub validate_presentation_definition : PresentationDefinition → Result Error (Unit {0})
validate_presentation_definition definition =
    if definition.id == ""
    then fail "presentation definition 'id' cannot be empty"
    else if is_empty definition.input_descriptors
    then fail "'input_descriptors' of presentation definition cannot be empty"
    else ok tt
