-- ===== src/AuthorizationRequest/Object/Matching.antt =====
-- What the parameters for the return URI and for the query must be.
use mathlib.Core.Option as O
use openid4vp.Common.{
  String, Option, none, some, Result, ok, err, Anyhow, map_err, to_option, ◌≡◌, ◌↔◌, refl, arith,
}
use openid4vp.Error.{Error}
use openid4vp.Object.{UntypedObject, TypedParameter, get, parsing_error, result_parsing_error}
use openid4vp.Parameters.ResponseMode.{
  ResponseMode, direct_post, direct_post_jwt, fragment, fragment_jwt, dc_api, dc_api_jwt,
  unsupported,
}
use openid4vp.PresentationDefinition.{PresentationDefinition}
use openid4vp.Dcql.Query.{Dcql}
use openid4vp.Utils.NonEmpty.{NonEmptyVec}
use openid4vp.AuthorizationRequest.Typed
use openid4vp.AuthorizationRequest.Typed.{Serde}
use openid4vp.AuthorizationRequest.Object.{
  by_value, by_reference, PresentationQuery, dcql, presentation_definition, read_return_uri,
  read_origins, match_return_uri, match_query,
}

-- Changing the error does not change what is returned.
pub map_err_iff :
    {E F A : Type 0} (g : E → F) (r : Result E A) {a : A} → (map_err g r ≡ ok a) ↔ (r ≡ ok a)
map_err_iff g (ok b) = (λ h. ground arith, λ h. ground arith)
map_err_iff g (err e) = (λ h. cc, λ h. cc)

pub parsing_error_iff :
    {A : Type 0} (p : TypedParameter A) (found : Option (Result Anyhow A)) {a : A}
    → (parsing_error p found ≡ ok a) ↔ (found ≡ some (ok a))
unfolding parsing_error
parsing_error_iff p none = (λ h. cc, λ h. cc)
parsing_error_iff p (some (ok b)) = (λ h. ground arith, λ h. ground arith)
parsing_error_iff p (some (err e)) = (λ h. cc, λ h. cc)

-- The URI that the mode uses is given and parsed, and the other one is not given.
abbrev pub Sent :
    Option (Result Anyhow String)
    → Option (Result Anyhow String)
    → Option String
    → Option (NonEmptyVec String)
    → Type 0
Sent used unused url o =
    (u : String) × (used ≡ some (ok u)) × (unused ≡ none) × (url ≡ some u) × (o ≡ none)

-- What the parameters must be for a return URI and expected origins, in a response mode.
abbrev pub Returned :
    Option (Result Anyhow String)
    → Option (Result Anyhow String)
    → Option (Result Anyhow (NonEmptyVec String))
    → ResponseMode
    → Option String
    → Option (NonEmptyVec String)
    → Type 0
Returned redirect response origins fragment url o = Sent redirect response url o
Returned redirect response origins fragment_jwt url o = Sent redirect response url o
Returned redirect response origins direct_post url o = Sent response redirect url o
Returned redirect response origins direct_post_jwt url o = Sent response redirect url o
Returned redirect response origins (unsupported m) url o = ⊥
Returned redirect response origins _ url o =
    (redirect ≡ none) × (response ≡ none) × (url ≡ none) × (o ≡ O.join (O.map to_option origins))

-- Exactly one of the three parameters is given, it is the one of the query, and it is parsed.
abbrev pub Queried :
    Option (Result Anyhow PresentationDefinition)
    → Option (Result Anyhow String)
    → Option (Result Anyhow Dcql)
    → PresentationQuery
    → Type 0
Queried pd uri query (dcql v) = (pd ≡ none) × (uri ≡ none) × (query ≡ some (ok v))
Queried pd uri query (presentation_definition (by_value v)) =
    (pd ≡ some (ok v)) × (uri ≡ none) × (query ≡ none)
Queried pd uri query (presentation_definition (by_reference u)) =
    (pd ≡ none) × (uri ≡ some (ok u)) × (query ≡ none)

refused : {A P : Type 0} (e : Error) (a : A) → ¬ P → Path (Result Error A) (err e) (ok a) ↔ P
refused e a never = (λ h. cc, λ p. elim (never p) [ ])

none_unsent :
    {unused : Option (Result Anyhow String)} {url : Option String} {o : Option (NonEmptyVec String)}
    → ¬ Sent none unused url o
none_unsent (u, e, _, _, _) = cc

both_unsent :
    {used : Option (Result Anyhow String)} {r : Result Anyhow String} {url : Option String}
    {o : Option (NonEmptyVec String)}
    → ¬ Sent used (some r) url o
both_unsent (u, _, e, _, _) = cc

module _ (s : Serde) (value : UntypedObject) (state : Option String) where
  read_return_uri_iff :
      (p : TypedParameter String) (r : Result Anyhow String) (mode m : ResponseMode)
      (url : Option String) (o : Option (NonEmptyVec String))
      → (read_return_uri s value state (result_parsing_error p r) mode ≡ ok (url, m, o))
        ↔ ((m ≡ mode) × Sent (some r) none url o)
  unfolding read_return_uri result_parsing_error
  read_return_uri_iff p (ok u) mode m url o = (
    λ h. (ground arith, (u, refl, refl, ground arith, ground arith)),
    λ (e, (v, f, _, g, k)). ground arith,
  )
  read_return_uri_iff p (err u) mode m url o = (λ h. cc, λ (e, (v, f, _, g, k)). cc)

  pub match_return_uri_iff :
      (redirect response : Option (Result Anyhow String)) (mode m : ResponseMode)
      (url : Option String) (o : Option (NonEmptyVec String))
      → (match_return_uri s value state redirect response mode ≡ ok (url, m, o)) ↔ (
          (m ≡ mode) × Returned redirect response (get (Typed.expected_origins s) value) mode url o)
  unfolding match_return_uri read_origins
  match_return_uri_iff none none direct_post m url o = refused _ _ (λ h. none_unsent h.1)
  match_return_uri_iff none none direct_post_jwt m url o = refused _ _ (λ h. none_unsent h.1)
  match_return_uri_iff none none fragment m url o = refused _ _ (λ h. none_unsent h.1)
  match_return_uri_iff none none fragment_jwt m url o = refused _ _ (λ h. none_unsent h.1)
  match_return_uri_iff none none dc_api m url o = (
    λ h. (ground arith, (refl, refl, ground arith, ground arith)),
    λ (e, (_, _, f, g)). ground arith,
  )
  match_return_uri_iff none none dc_api_jwt m url o = (
    λ h. (ground arith, (refl, refl, ground arith, ground arith)),
    λ (e, (_, _, f, g)). ground arith,
  )
  match_return_uri_iff none none (unsupported u) m url o = refused _ _ (λ h. h.1)
  match_return_uri_iff none (some q) direct_post m url o =
      read_return_uri_iff (Typed.response_uri s) q direct_post m url o
  match_return_uri_iff none (some q) direct_post_jwt m url o =
      read_return_uri_iff (Typed.response_uri s) q direct_post_jwt m url o
  match_return_uri_iff none (some q) fragment m url o = refused _ _ (λ h. none_unsent h.1)
  match_return_uri_iff none (some q) fragment_jwt m url o = refused _ _ (λ h. none_unsent h.1)
  match_return_uri_iff none (some q) dc_api m url o = refused _ _ (λ (_, (_, e, _, _)). cc)
  match_return_uri_iff none (some q) dc_api_jwt m url o = refused _ _ (λ (_, (_, e, _, _)). cc)
  match_return_uri_iff none (some q) (unsupported u) m url o = refused _ _ (λ h. h.1)
  match_return_uri_iff (some r) none direct_post m url o = refused _ _ (λ h. none_unsent h.1)
  match_return_uri_iff (some r) none direct_post_jwt m url o = refused _ _ (λ h. none_unsent h.1)
  match_return_uri_iff (some r) none fragment m url o =
      read_return_uri_iff (Typed.redirect_uri s) r fragment m url o
  match_return_uri_iff (some r) none fragment_jwt m url o =
      read_return_uri_iff (Typed.redirect_uri s) r fragment_jwt m url o
  match_return_uri_iff (some r) none dc_api m url o = refused _ _ (λ (_, (e, _, _, _)). cc)
  match_return_uri_iff (some r) none dc_api_jwt m url o = refused _ _ (λ (_, (e, _, _, _)). cc)
  match_return_uri_iff (some r) none (unsupported u) m url o = refused _ _ (λ h. h.1)
  match_return_uri_iff (some r) (some q) direct_post m url o = refused _ _ (λ h. both_unsent h.1)
  match_return_uri_iff (some r) (some q) direct_post_jwt m url o =
      refused _ _ (λ h. both_unsent h.1)
  match_return_uri_iff (some r) (some q) fragment m url o = refused _ _ (λ h. both_unsent h.1)
  match_return_uri_iff (some r) (some q) fragment_jwt m url o = refused _ _ (λ h. both_unsent h.1)
  match_return_uri_iff (some r) (some q) dc_api m url o = refused _ _ (λ (_, (e, _, _, _)). cc)
  match_return_uri_iff (some r) (some q) dc_api_jwt m url o = refused _ _ (λ (_, (e, _, _, _)). cc)
  match_return_uri_iff (some r) (some q) (unsupported u) m url o = refused _ _ (λ h. h.1)

  pub Queried-match_query :
      (pd : Option (Result Anyhow PresentationDefinition)) (uri : Option (Result Anyhow String))
      (query : Option (Result Anyhow Dcql)) (q : PresentationQuery)
      → match_query s value state pd uri query ≡ ok q
      → Queried pd uri query q
  unfolding match_query result_parsing_error
  Queried-match_query none none none q h = cc
  Queried-match_query none none (some (ok v)) q h =
      let e : q ≡ dcql v = ground arith in rw e (refl, refl, refl)
  Queried-match_query none none (some (err v)) q h = cc
  Queried-match_query none (some (ok u)) none q h =
      let e : q ≡ presentation_definition (by_reference u) = ground arith in rw e (refl, refl, refl)
  Queried-match_query none (some (err u)) none q h = cc
  Queried-match_query none (some u) (some v) q h = cc
  Queried-match_query (some (ok p)) none none q h =
      let e : q ≡ presentation_definition (by_value p) = ground arith in rw e (refl, refl, refl)
  Queried-match_query (some (err p)) none none q h = cc
  Queried-match_query (some p) none (some v) q h = cc
  Queried-match_query (some p) (some u) none q h = cc
  Queried-match_query (some p) (some u) (some v) q h = cc

  pub match_query-Queried :
      (pd : Option (Result Anyhow PresentationDefinition)) (uri : Option (Result Anyhow String))
      (query : Option (Result Anyhow Dcql)) (q : PresentationQuery)
      → Queried pd uri query q
      → match_query s value state pd uri query ≡ ok q
  unfolding match_query result_parsing_error
  match_query-Queried pd uri query (dcql v) (a, b, c) = rw (a, b, c) refl
  match_query-Queried pd uri query (presentation_definition (by_value v)) (a, b, c) =
      rw (a, b, c) refl
  match_query-Queried pd uri query (presentation_definition (by_reference u)) (a, b, c) =
      rw (a, b, c) refl
