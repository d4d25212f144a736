-- ===== src/Response/Authorization/Laws.antt =====
-- A response that is sent as a form, read from that form.
use mathlib.Core.Option as O
use openid4vp.Common.{
  ℕ, String, Option, none, some, List, [], ◌∷◌, map, ok, err, Anyhow, ◌>>=◌, transpose, to_option,
  nat_eq, ◌≡◌, refl,
}
use openid4vp.Json.{string, array, of_items}
use openid4vp.Object.{result_parsing_error}
use openid4vp.PresentationSubmission.Types.{PresentationSubmission}
use openid4vp.AuthorizationRequest.Object.Matching.{map_err_iff}
use openid4vp.Response.Token
use openid4vp.Response.Token.{
  jwt, IdToken, VpToken, VpTokenItem, string_item, json_object, ResponseSerde, from_string,
  format_to_string, try_from_string,
}
use openid4vp.Response.Authorization.{
  TransactionDataResponse, UnencodedAuthorizationResponse, unencoded, Forms, read_alg,
  data_try_from, data_into_json, try_from_encoded, into_encoded, into_x_www_form_urlencoded,
  from_x_www_form_urlencoded,
}

-- What is printed of a response is read back, its form is no form of a JWT, and a text is printed
-- in quotes.
pub record IsFaithful (r : ResponseSerde) (forms : Forms) (as_bytes : String → List ℕ)
    (a : UnencodedAuthorizationResponse) : Type 0 where
  pub vp_token : r.vp_token_from_str (r.to_string (r.vp_token_to_value a.vp_token)) ≡ ok a.vp_token
  pub submission :
      (ps : PresentationSubmission)
      → a.presentation_submission ≡ some ps
      → (text : String) × (r.submission_to_string ps ≡ ok text)
        × (r.submission_from_str text ≡ ok ps)
  pub hashes :
      (d : TransactionDataResponse)
      → a.transaction_data_response ≡ some d
      → r.hashes_from_str (r.to_string (array (of_items (map string d.transaction_data_hashes))))
        ≡ ok d.transaction_data_hashes
  pub form :
      {q : String}
      → forms.to_string (into_encoded r a) ≡ ok q
      → ((e : Anyhow) × (forms.jwt_from_bytes (as_bytes q) ≡ err e))
        × (forms.from_bytes (as_bytes q) ≡ ok (into_encoded r a))
  pub quoted : (t : String) → (rest : String) × (r.to_string (string t) ≡ String.◌∷◌ "\"" rest)
  pub one : (t : String) → r.vp_token_to_value (from_string t) ≡ string t

-- A VP token that is one text.
abbrev pub IsText : VpToken → Type 0
IsText t = (s : String) × (t.items ≡ string_item s ∷ [])

abbrev pub IsDecoded : ResponseSerde → Option IdToken → Type 0
IsDecoded r none = Unit {0}
IsDecoded r (some t) = r.decode_id_token t.raw ≡ ok t.parsed

abbrev pub HasNoAlg : Option TransactionDataResponse → Type 0
HasNoAlg none = Unit {0}
HasNoAlg (some d) = d.transaction_data_hashes_alg ≡ none

-- The responses that a form keeps.
abbrev pub IsReadable : ResponseSerde → UnencodedAuthorizationResponse → Type 0
IsReadable r a =
    (¬ IsText a.vp_token) × IsDecoded r a.id_token × HasNoAlg a.transaction_data_response

module _ (r : ResponseSerde) (forms : Forms) (as_bytes : String → List ℕ)
    (a : UnencodedAuthorizationResponse) (faithful : IsFaithful r forms as_bytes a) where
  format_of_items :
      (items : List VpTokenItem)
      → ¬ IsText (record { items = items })
      → format_to_string r (record { items = items })
        ≡ r.to_string (r.vp_token_to_value (record { items = items }))
  unfolding format_to_string
  format_of_items [] h = refl
  format_of_items (json_object m ∷ items) h = refl
  format_of_items (string_item s ∷ []) h = absurd (h (s, refl))
  format_of_items (string_item s ∷ item ∷ items) h = refl

  read-submission :
      (ps : Option PresentationSubmission)
      → a.presentation_submission ≡ ps
      → transpose
          (O.map r.submission_from_str (O.bind ps (λ p. to_option (r.submission_to_string p))))
        ≡ ok ps
  unfolding O.bind
  read-submission none e = refl
  read-submission (some p) e =
      let (text, printed, read) = faithful.submission p e in rw (printed, read) refl

  read-id_token :
      (t : Option IdToken)
      → IsDecoded r t
      → transpose (
          O.map
            (λ text. result_parsing_error (Token.id_token r) (try_from_string r text))
            (O.map jwt t))
        ≡ ok t
  unfolding result_parsing_error try_from_string jwt
  read-id_token none h = refl
  read-id_token (some t) h = rw h refl

  read-details :
      (d : Option TransactionDataResponse)
      → a.transaction_data_response ≡ d
      → HasNoAlg d
      → transpose (O.map (data_try_from r) (O.map (data_into_json r) d)) ≡ ok d
  unfolding data_try_from data_into_json read_alg
  read-details none e h = refl
  read-details (some d) e h = rw (faithful.hashes d e, h) refl

  try_from_encoded-into_encoded : IsReadable r a → try_from_encoded r (into_encoded r a) ≡ ok a
  unfolding try_from_encoded into_encoded
  try_from_encoded-into_encoded (more, decoded, no_alg) =
      rw
        (
          format_of_items a.vp_token.items more,
          faithful.vp_token,
          read-submission a.presentation_submission refl,
          read-id_token a.id_token decoded,
          read-details a.transaction_data_response refl no_alg,
        )
        refl

  -- What the form of a response is read as, by its encoded parts.
  pub from_x_www_form_urlencoded-into :
      {q : String}
      → into_x_www_form_urlencoded r forms a ≡ ok q
      → from_x_www_form_urlencoded r forms (as_bytes q)
        ≡ (try_from_encoded r (into_encoded r a) >>= λ b. ok (unencoded b))
  unfolding into_x_www_form_urlencoded from_x_www_form_urlencoded
  from_x_www_form_urlencoded-into h =
      let printed = (map_err_iff _ (forms.to_string (into_encoded r a))).0 h in
      let ((e, no_jwt), read) = faithful.form printed in
      rw (from_x_www_form_urlencoded, no_jwt, read) refl

  -- A response is read back from its form when its VP token is not a single text, its ID token is
  -- decoded from its own text, and it names no hash algorithm.
  pub from_x_www_form_urlencoded-into_x_www_form_urlencoded :
      {q : String}
      → IsReadable r a
      → into_x_www_form_urlencoded r forms a ≡ ok q
      → from_x_www_form_urlencoded r forms (as_bytes q) ≡ ok (unencoded a)
  from_x_www_form_urlencoded-into_x_www_form_urlencoded readable h =
      rw (from_x_www_form_urlencoded-into h, try_from_encoded-into_encoded readable) refl
