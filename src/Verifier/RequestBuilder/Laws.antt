-- ===== src/Verifier/RequestBuilder/Laws.antt =====
-- What the steps of building a request leave as it was, and what they write.
use openid4vp.Common.{
  String, false, Option, none, some, Result, ok, err, Anyhow, ◌>>=◌, ◌≡◌, refl, ap, ◌∙◌, >>=-eq-ok,
  Result-cases, inl, inr, ◌==◌, string_eq, arith, [], ◌∷◌, context, transpose, ok_or,
}
use openid4vp.Error.{Error, internal}
use openid4vp.Object.{UntypedObject, TypedParameter, get, insert, remove}
use openid4vp.Object.Laws.{get-insert, get-insert_failed, get-remove}
use openid4vp.Parameters.ClientId.{ClientId}
use openid4vp.Parameters.ClientId.Laws.{new-get_full_id}
use openid4vp.Parameters.ResponseMode.{
  ResponseMode, direct_post, direct_post_jwt, fragment, fragment_jwt, dc_api, dc_api_jwt,
  unsupported,
}
use openid4vp.PresentationDefinition.{PresentationDefinition}
use openid4vp.Dcql.Query.{Dcql}
use openid4vp.AuthorizationRequest.Typed
use openid4vp.AuthorizationRequest.Typed.{Serde, client_id_from}
use openid4vp.AuthorizationRequest.Object.{lift}
use openid4vp.Verifier.Checks.{validate_dcql, validate_presentation_definition}
use openid4vp.Verifier.ByReference
use openid4vp.Verifier.ByReference.{RequestType, plain, signed_jwt}
use openid4vp.Verifier.RequestBuilder.{
  require_endpoint, set_client_id, set_dc_api, set_return_uri, build_helper, insert_query,
}

-- An insertion leaves a parameter of another key as it was, also where it fails.
pub get-insert_other :
    {T U : Type 0} (p : TypedParameter T) (q : TypedParameter U) (t : T) (o : UntypedObject)
    → (p.key == q.key) ≡ false
    → get q (insert p t o).0 ≡ get q o
get-insert_other p q t o differ = elim (Result-cases (p.try_into t)) [
  | inl (v, e) ↦ ground (arith, get-insert p q t o e)
  | inr (x, e) ↦ rw (get-insert_failed p q t o e) refl
]

pub get-remove_other :
    {T U : Type 0} (p : TypedParameter T) (q : TypedParameter U) (o : UntypedObject)
    → (p.key == q.key) ≡ false
    → get q (remove p o).0 ≡ get q o
get-remove_other p q o differ = ground (arith, get-remove p q o)

module _ (s : Serde) where
  -- The client identifier that is inserted is read back.
  pub get-insert_client_id :
      (c : ClientId) (o : UntypedObject)
      → get (Typed.client_id s) (insert (Typed.client_id s) c o).0 ≡ some (ok c)
  unfolding client_id_from
  get-insert_client_id c o =
      get-insert (Typed.client_id s) (Typed.client_id s) c o refl ∙ ap some (new-get_full_id c)

  -- The insertion of the query leaves the parameters of other keys.
  pub get-insert_query :
      {U : Type 0} (q : TypedParameter U) (dcql : Option Dcql)
      (definition : Option PresentationDefinition) (o o' : UntypedObject)
      → ("dcql_query" == q.key) ≡ false
      → ("presentation_definition" == q.key) ≡ false
      → insert_query s dcql definition o ≡ ok o'
      → get q o' ≡ get q o
  unfolding insert_query
  get-insert_query q (some d) none o o' e f h =
      let (u, valid, k) = >>=-eq-ok (validate_dcql d) _ h in
      let same : (insert (Typed.dcql_query s) d o).0 ≡ o' = ground arith in
      rw (← same) (get-insert_other (Typed.dcql_query s) q d o e)
  get-insert_query q none (some d) o o' e f h =
      let (u, valid, k) = >>=-eq-ok (validate_presentation_definition d) _ h in
      let same : (insert (Typed.presentation_definition s) d o).0 ≡ o' = ground arith in
      rw (← same) (get-insert_other (Typed.presentation_definition s) q d o f)
  get-insert_query q none none o o' e f h = absurd (ground arith)
  get-insert_query q (some d) (some p) o o' e f h = absurd (ground arith)

-- A parameter that must be there and be parsed.
required_found :
    {A B : Type 0} (found : Option (Result Anyhow A)) (message : String) (e : Error)
    (next : A → Result Error B) {b : B}
    → (lift (context message (transpose found)) >>= λ f. ok_or e f >>= next) ≡ ok b
    → (a : A) × (found ≡ some (ok a)) × (next a ≡ ok b)
required_found none message e next h = absurd (cc)
required_found (some (err x)) message e next h = absurd (cc)
required_found (some (ok a)) message e next h = (a, refl, h)

-- What becomes of the parameters in each response mode.
abbrev pub Returning :
    Serde → Option String → RequestType → UntypedObject → UntypedObject → ResponseMode → Type 0
Returning s endpoint t o o' direct_post =
    (uri : String) × (endpoint ≡ some uri) × (o' ≡ (insert (Typed.response_uri s) uri o).0)
Returning s endpoint t o o' direct_post_jwt =
    (uri : String) × (endpoint ≡ some uri) × (o' ≡ (insert (Typed.response_uri s) uri o).0)
Returning s endpoint t o o' fragment =
    (uri : String) × (endpoint ≡ some uri) × (o' ≡ (insert (Typed.redirect_uri s) uri o).0)
Returning s endpoint t o o' fragment_jwt =
    (uri : String) × (endpoint ≡ some uri) × (o' ≡ (insert (Typed.redirect_uri s) uri o).0)
Returning s endpoint t o o' (unsupported u) = ⊥
Returning s endpoint t o o' _ =
    (named : UntypedObject) × (set_client_id s t o ≡ ok named)
    × (o' ≡ (remove (Typed.redirect_uri s) (remove (Typed.response_uri s) named).0).0)

require_endpoint_lem :
    {B : Type 0} (endpoint : Option String) (mode : ResponseMode) (next : String → B) {b : B}
    → (require_endpoint endpoint mode >>= λ uri. ok (next uri)) ≡ ok b
    → (uri : String) × (endpoint ≡ some uri) × (b ≡ next uri)
unfolding require_endpoint
require_endpoint_lem none mode next h = absurd (cc)
require_endpoint_lem (some uri) mode next h = (uri, refl, ground arith)

-- A signed request keeps its parameters.
pub signed_keeps :
    (s : Serde) (r : ByReference.ByReference) (o : UntypedObject) {named : UntypedObject}
    → set_client_id s (signed_jwt r) o ≡ ok named
    → named ≡ o
unfolding set_client_id
signed_keeps s r o {named} h =
    let (origins, e, k) =
      required_found (get (Typed.expected_origins s) o)
        "error occurred when retrieving expected origins"
        (internal ("'expected_origins' parameter is missed" ∷ [])) (λ _. ok o) h in
    ground arith

get-set_client_id :
    {U : Type 0} (s : Serde) (t : RequestType) (q : TypedParameter U) (o : UntypedObject)
    {named : UntypedObject}
    → set_client_id s t o ≡ ok named
    → ("client_id" == q.key) ≡ false
    → get q named ≡ get q o
unfolding set_client_id
get-set_client_id s plain q o {named} h e =
    let same : (remove (Typed.client_id s) o).0 ≡ named = ground arith in
    rw (← same) (get-remove_other (Typed.client_id s) q o e)
get-set_client_id s (signed_jwt r) q o {named} h e = rw (signed_keeps s r o h) refl

module _ (s : Serde) (endpoint : Option String) (t : RequestType) where
  set_dc_api_lem :
      (o : UntypedObject) {o' : UntypedObject}
      → set_dc_api s t o ≡ ok o'
      → (named : UntypedObject) × (set_client_id s t o ≡ ok named)
        × (o' ≡ (remove (Typed.redirect_uri s) (remove (Typed.response_uri s) named).0).0)
  unfolding set_dc_api
  set_dc_api_lem o h =
      let (named, e, k) = >>=-eq-ok (set_client_id s t o) _ h in (named, e, ground arith)

  pub get-removed :
      {U : Type 0} (q : TypedParameter U) (o : UntypedObject)
      → ("response_uri" == q.key) ≡ false
      → ("redirect_uri" == q.key) ≡ false
      → get q (remove (Typed.redirect_uri s) (remove (Typed.response_uri s) o).0).0 ≡ get q o
  get-removed q o e f =
      get-remove_other (Typed.redirect_uri s) q (remove (Typed.response_uri s) o).0 f
      ∙ get-remove_other (Typed.response_uri s) q o e

  Returning-set_return_uri :
      (o : UntypedObject) {o' : UntypedObject} (mode : ResponseMode)
      → set_return_uri s endpoint t o mode ≡ ok o'
      → Returning s endpoint t o o' mode
  unfolding set_return_uri
  Returning-set_return_uri o direct_post h = require_endpoint_lem endpoint direct_post _ h
  Returning-set_return_uri o direct_post_jwt h = require_endpoint_lem endpoint direct_post_jwt _ h
  Returning-set_return_uri o fragment h = require_endpoint_lem endpoint fragment _ h
  Returning-set_return_uri o fragment_jwt h = require_endpoint_lem endpoint fragment_jwt _ h
  Returning-set_return_uri o dc_api h = set_dc_api_lem o h
  Returning-set_return_uri o dc_api_jwt h = set_dc_api_lem o h
  Returning-set_return_uri o (unsupported u) h = ground arith

  -- The parameters of other keys stay.
  pub get-Returning :
      {U : Type 0} (q : TypedParameter U) (o o' : UntypedObject) (mode : ResponseMode)
      → ("response_uri" == q.key) ≡ false
      → ("redirect_uri" == q.key) ≡ false
      → ("client_id" == q.key) ≡ false
      → Returning s endpoint t o o' mode
      → get q o' ≡ get q o
  get-Returning q o o' direct_post e f g (uri, _, same) =
      rw same (get-insert_other (Typed.response_uri s) q uri o e)
  get-Returning q o o' direct_post_jwt e f g (uri, _, same) =
      rw same (get-insert_other (Typed.response_uri s) q uri o e)
  get-Returning q o o' fragment e f g (uri, _, same) =
      rw same (get-insert_other (Typed.redirect_uri s) q uri o f)
  get-Returning q o o' fragment_jwt e f g (uri, _, same) =
      rw same (get-insert_other (Typed.redirect_uri s) q uri o f)
  get-Returning q o o' dc_api e f g (named, n, same) =
      rw same (get-removed q named e f ∙ get-set_client_id s t q o n g)
  get-Returning q o o' dc_api_jwt e f g (named, n, same) =
      rw same (get-removed q named e f ∙ get-set_client_id s t q o n g)
  get-Returning q o o' (unsupported u) e f g h = absurd h

  -- The mode is read from the parameters, which change as it asks.
  pub build_helper_lem :
      (o : UntypedObject) {o' : UntypedObject}
      → build_helper s endpoint t o ≡ ok o'
      → (mode : ResponseMode) × (get (Typed.response_mode s) o ≡ some (ok mode))
        × Returning s endpoint t o o' mode
  unfolding build_helper
  build_helper_lem o {o'} h =
      let (mode, read, k) =
        required_found (get (Typed.response_mode s) o)
          "error occurred when retrieving response mode"
          (internal ("'response_mode' parameter is missed" ∷ [])) (set_return_uri s endpoint t o)
          h in
      (mode, read, Returning-set_return_uri o mode k)
