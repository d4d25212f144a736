-- ===== src/Verifier/RequestBuilder/Returns.antt =====
-- The return URI and the client identifier of a request in each response mode.
use openid4vp.Common.{
  String, Option, none, some, Result, ok, Anyhow, ◌≡◌, ◌≢◌, ◌⊎◌, inl, inr, refl, ◌∙◌, string_eq,
  arith, beq_refl,
}
use openid4vp.Json.{string}
use openid4vp.Object.{UntypedObject, TypedParameter, get, get_or_default, insert, remove}
use openid4vp.Object.Laws.{get-insert, get-remove}
use openid4vp.Parameters.ClientId.{ClientId}
use openid4vp.Parameters.ResponseMode
use openid4vp.Parameters.ResponseMode.{
  ResponseMode, direct_post, direct_post_jwt, fragment, fragment_jwt, dc_api, dc_api_jwt,
  unsupported,
}
use openid4vp.Parameters.ResponseType.{type_eq}
use openid4vp.AuthorizationRequest.Typed
use openid4vp.AuthorizationRequest.Typed.{Serde}
use openid4vp.AuthorizationRequest.Object.Matching
use openid4vp.AuthorizationRequest.Object.Matching.{map_err_iff, Returned}
use openid4vp.Utils.NonEmpty.{NonEmptyVec}
use openid4vp.Verifier.ByReference.{RequestType, plain, signed_jwt}
use openid4vp.Verifier.RequestBuilder.{set_client_id}
use openid4vp.Verifier.RequestBuilder.Laws.{get-insert_other, Returning, signed_keeps, get-removed}

-- The return URI is the endpoint of the verifier, but for the Digital Credentials API, which has
-- none.
abbrev pub ReturnsTo : ResponseMode → Option String → Option String → Type 0
ReturnsTo dc_api endpoint uri = uri ≡ none
ReturnsTo dc_api_jwt endpoint uri = uri ≡ none
ReturnsTo (unsupported u) endpoint uri = ⊥
ReturnsTo _ endpoint uri = (uri ≡ endpoint) × (endpoint ≢ none)

-- The modes of the Digital Credentials API.
abbrev pub IsDcApi : ResponseMode → Type 0
IsDcApi mode = (mode ≡ dc_api) ⊎ (mode ≡ dc_api_jwt)

-- No client identifier is left in a plain request of the Digital Credentials API.
plain_unnamed :
    (s : Serde) (endpoint : Option String) (o o' named : UntypedObject)
    → set_client_id s plain o ≡ ok named
    → o' ≡ (remove (Typed.redirect_uri s) (remove (Typed.response_uri s) named).0).0
    → get (Typed.client_id s) o' ≡ none
unfolding set_client_id
plain_unnamed s endpoint o o' named e same =
    let removed : (remove (Typed.client_id s) o).0 ≡ named = ground arith in
    rw same (
      get-removed s endpoint plain (Typed.client_id s) named refl refl
      ∙ rw (← removed) (get-remove (Typed.client_id s) (Typed.client_id s) o))

pub Returning-unnamed :
    (s : Serde) (endpoint : Option String) (o o' : UntypedObject) (mode : ResponseMode)
    → IsDcApi mode
    → Returning s endpoint plain o o' mode
    → get (Typed.client_id s) o' ≡ none
Returning-unnamed s endpoint o o' mode (inl m) r =
    let (named, e, same) = rw m at r in plain_unnamed s endpoint o o' named e same
Returning-unnamed s endpoint o o' mode (inr m) r =
    let (named, e, same) = rw m at r in plain_unnamed s endpoint o o' named e same

-- The client identifier stays, or is removed.
pub get-client_id :
    (s : Serde) (endpoint : Option String) (t : RequestType) (o o' : UntypedObject)
    (mode : ResponseMode)
    → Returning s endpoint t o o' mode
    → (get (Typed.client_id s) o' ≡ get (Typed.client_id s) o) ⊎ (get (Typed.client_id s) o' ≡ none)
get-client_id s endpoint t o o' direct_post (uri, _, same) =
    inl (rw same (get-insert_other (Typed.response_uri s) (Typed.client_id s) uri o refl))
get-client_id s endpoint t o o' direct_post_jwt (uri, _, same) =
    inl (rw same (get-insert_other (Typed.response_uri s) (Typed.client_id s) uri o refl))
get-client_id s endpoint t o o' fragment (uri, _, same) =
    inl (rw same (get-insert_other (Typed.redirect_uri s) (Typed.client_id s) uri o refl))
get-client_id s endpoint t o o' fragment_jwt (uri, _, same) =
    inl (rw same (get-insert_other (Typed.redirect_uri s) (Typed.client_id s) uri o refl))
get-client_id s endpoint t o o' (unsupported u) h = absurd h
get-client_id s endpoint plain o o' dc_api (named, e, same) =
    inr (plain_unnamed s endpoint o o' named e same)
get-client_id s endpoint plain o o' dc_api_jwt (named, e, same) =
    inr (plain_unnamed s endpoint o o' named e same)
get-client_id s endpoint (signed_jwt r) o o' dc_api (named, e, same) =
    inl (
      rw (same, signed_keeps s r o e)
        (get-removed s endpoint plain (Typed.client_id s) o refl refl))
get-client_id s endpoint (signed_jwt r) o o' dc_api_jwt (named, e, same) =
    inl (
      rw (same, signed_keeps s r o e)
        (get-removed s endpoint plain (Typed.client_id s) o refl refl))

-- The endpoint, which is a URL, is read back from its text.
abbrev pub ReadsUrl : Serde → Option String → Type 0
ReadsUrl s endpoint = (url : String) → endpoint ≡ some url → s.to_url (string url) ≡ ok url

pub read_mode :
    (s : Serde) (p : UntypedObject) {mode mode' : ResponseMode}
    → get (Typed.response_mode s) p ≡ some (ok mode)
    → get_or_default (Typed.response_mode s) ResponseMode.default p ≡ ok mode'
    → mode ≡ mode'
unfolding get get_or_default
read_mode s p e f = ground arith

pub named_by :
    {c d : ClientId} {found given : Option (Result Anyhow ClientId)}
    → (found ≡ given) ⊎ (found ≡ none)
    → given ≡ some (ok d)
    → found ≡ some (ok c)
    → c ≡ d
named_by (inl e) given_e found_e = cc
named_by (inr e) given_e found_e = cc

inserted_uri :
    (p : TypedParameter String) (uri u : String) (o o' : UntypedObject)
    → p.try_into uri ≡ ok (string uri)
    → p.try_from (string uri) ≡ ok uri
    → o' ≡ (insert p uri o).0
    → get p o' ≡ some (ok u)
    → u ≡ uri
inserted_uri p uri u o o' printed parsed same read =
    cc (get-insert p p uri o printed, beq_refl p.key, parsed)

uri_of_Sent :
    (p : TypedParameter String) (endpoint : Option String) (o o' : UntypedObject)
    {unused : Option (Result Anyhow String)} {url : Option String}
    {origins : Option (NonEmptyVec String)}
    → ((uri : String) → p.try_into uri ≡ ok (string uri))
    → ((uri : String) → endpoint ≡ some uri → p.try_from (string uri) ≡ ok uri)
    → (uri : String) × (endpoint ≡ some uri) × (o' ≡ (insert p uri o).0)
    → Matching.Sent (get p o') unused url origins
    → (url ≡ endpoint) × (endpoint ≢ none)
uri_of_Sent p endpoint o o' prints reads (uri, e, same) (u, used, unused, url_e, _) =
    let equal : u ≡ uri = inserted_uri p uri u o o' (prints uri) (reads uri e) same used in
    (cc, λ n. cc)

pub Returning-ReturnsTo :
    (s : Serde) (endpoint : Option String) (t : RequestType) (o o' : UntypedObject)
    (mode : ResponseMode) (url : Option String) (origins : Option (NonEmptyVec String))
    → ReadsUrl s endpoint
    → Returning s endpoint t o o' mode
    → Returned
        (get (Typed.redirect_uri s) o')
        (get (Typed.response_uri s) o')
        (get (Typed.expected_origins s) o')
        mode
        url
        origins
    → ReturnsTo mode endpoint url
Returning-ReturnsTo s endpoint t o o' direct_post url origins reads r sent =
    uri_of_Sent (Typed.response_uri s) endpoint o o' (λ u. refl) reads r sent
Returning-ReturnsTo s endpoint t o o' direct_post_jwt url origins reads r sent =
    uri_of_Sent (Typed.response_uri s) endpoint o o' (λ u. refl) reads r sent
Returning-ReturnsTo s endpoint t o o' fragment url origins reads r sent =
    uri_of_Sent (Typed.redirect_uri s) endpoint o o' (λ u. refl) reads r sent
Returning-ReturnsTo s endpoint t o o' fragment_jwt url origins reads r sent =
    uri_of_Sent (Typed.redirect_uri s) endpoint o o' (λ u. refl) reads r sent
Returning-ReturnsTo s endpoint t o o' dc_api url origins reads r (_, _, gone, _) = gone
Returning-ReturnsTo s endpoint t o o' dc_api_jwt url origins reads r (_, _, gone, _) = gone
Returning-ReturnsTo s endpoint t o o' (unsupported u) url origins reads r sent = r
