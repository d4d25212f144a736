-- ===== src/Response/Authorization/Lost.antt =====
-- Responses that are lost in their form: it is made, and no response is read from it.
use text.Mathlib.TextLemmas.{cons-append}
use openid4vp.Common.{
  ℕ, String, ◌<>◌, Char, code, false, Option, some, [], ◌∷◌, ok, err, IsOk, List, Anyhow, transpose,
  sym, ◌∙◌, >>=-eq-ok, Result-cases, inl, inr, ◌==◌, nat_eq, ◌≡◌, ◌≢◌, refl, ap, arith,
}
use mathlib.Core.Option as O
use openid4vp.Json.{string}
use openid4vp.Object.{result_parsing_error}
use openid4vp.Parameters.Algorithms
use openid4vp.Parameters.Algorithms.{HashAlgorithm, sha256, sha384, sha512, try_from_iff}
use openid4vp.Verification.X509.{trim_end_matches}
use openid4vp.AuthorizationRequest.Object.Matching.{map_err_iff}
use openid4vp.Response.Token
use openid4vp.Response.Token.{
  try_from_string, VpToken, ResponseSerde, from_string, trim_start_matches, trim_matches,
  format_to_string,
}
use openid4vp.Response.Authorization.{
  TransactionDataResponse, UnencodedAuthorizationResponse, Forms, or_fail, read_alg, data_try_from,
  data_into_json, try_from_encoded, into_encoded, into_x_www_form_urlencoded,
  from_x_www_form_urlencoded,
}
use openid4vp.Response.Authorization.Laws.{IsFaithful, from_x_www_form_urlencoded-into}

abbrev first_code : String → ℕ
first_code String.[] = 0
first_code (String.◌∷◌ c s) = code c

show-unquoted : (a : HashAlgorithm) (rest : String) → Algorithms.show a ≢ String.◌∷◌ "\"" rest
unfolding Algorithms.show
show-unquoted sha256 rest h = let e = ap first_code h in absurd (ground arith)
show-unquoted sha384 rest h = let e = ap first_code h in absurd (ground arith)
show-unquoted sha512 rest h = let e = ap first_code h in absurd (ground arith)

trim_end-quote : (s : String) → trim_end_matches b'"' (s <> "\"") ≡ trim_end_matches b'"' s
unfolding trim_end_matches
trim_end-quote String.[] = refl
trim_end-quote (String.◌∷◌ c s) = ground (arith, cons-append c s "\"", trim_end-quote s)

-- A text without a quote at its ends.
abbrev pub IsUnquoted : String → Type 0
IsUnquoted s =
    (c : Char) × (rest : String) × (s ≡ String.◌∷◌ c rest)
    × ((code c == b'"') ≡ false)
    × (trim_end_matches b'"' s ≡ s)

trim-quotes : (s : String) → IsUnquoted s → trim_matches b'"' (String.◌∷◌ "\"" (s <> "\"")) ≡ s
unfolding trim_matches trim_start_matches
trim-quotes s (c, rest, e, plain, kept) =
    rw (e, cons-append c rest "\"", plain, ← cons-append c rest "\"", ← e, trim_end-quote s, kept)
      refl

module _ (r : ResponseSerde) (forms : Forms) (as_bytes : String → List ℕ)
    (a : UnencodedAuthorizationResponse) (faithful : IsFaithful r forms as_bytes a) where
  format-from_string :
      (s : String)
      → IsUnquoted s
      → r.to_string (string s) ≡ String.◌∷◌ "\"" (s <> "\"")
      → format_to_string r (from_string s) ≡ s
  unfolding format_to_string from_string
  format-from_string s unquoted printed = rw (faithful.one s, printed, trim-quotes s unquoted) refl

  lost_of_refused :
      {q : String}
      → ¬ IsOk (try_from_encoded r (into_encoded r a))
      → into_x_www_form_urlencoded r forms a ≡ ok q
      → ¬ IsOk (from_x_www_form_urlencoded r forms (as_bytes q))
  lost_of_refused {q} refused h (b, e) =
      let sent = from_x_www_form_urlencoded-into r forms as_bytes a faithful h in
      let (c, read, _) = >>=-eq-ok (try_from_encoded r (into_encoded r a)) _ (sym sent ∙ e) in
      refused (c, read)

  -- A response whose VP token is a single text is sent with that text without quotes, so when the
  -- text itself is no JSON, as a JWT is not, no response is read from the form.
  pub from_x_www_form_urlencoded-single-text :
      (s : String) {e : Anyhow} {q : String}
      → a.vp_token ≡ from_string s
      → IsUnquoted s
      → r.to_string (string s) ≡ String.◌∷◌ "\"" (s <> "\"")
      → r.vp_token_from_str s ≡ err e
      → into_x_www_form_urlencoded r forms a ≡ ok q
      → ¬ IsOk (from_x_www_form_urlencoded r forms (as_bytes q))
  unfolding try_from_encoded into_encoded
  from_x_www_form_urlencoded-single-text s {e} {q} single unquoted printed no_json h =
      lost_of_refused
        (λ (b, k).
          let (t, read, _) =
            >>=-eq-ok
              (or_fail "failed to decode vp token"
                (r.vp_token_from_str (format_to_string r a.vp_token)))
              _ k in
          let parsed =
            (map_err_iff _ (r.vp_token_from_str (format_to_string r a.vp_token))).0 read in
          let same = format-from_string s unquoted printed in cc)
        h

  details-read :
      (given : Option TransactionDataResponse) (d : TransactionDataResponse)
      → given ≡ some d
      → IsOk (transpose (O.map (data_try_from r) (O.map (data_into_json r) given)))
      → IsOk (data_try_from r (data_into_json r d))
  details-read given d h (found, read) =
      elim (Result-cases (data_try_from r (data_into_json r d))) [
        | inl done ↦ done
        | inr (e, failed) ↦
            let refused : transpose (O.map (data_try_from r) (O.map (data_into_json r) given))
                ≡ err e =
              rw (h, failed) refl in
            absurd (cc)
      ]

  alg-refused :
      (d : TransactionDataResponse) (alg : HashAlgorithm)
      → a.transaction_data_response ≡ some d
      → d.transaction_data_hashes_alg ≡ some alg
      → ¬ IsOk (data_try_from r (data_into_json r d))
  unfolding data_try_from data_into_json read_alg
  alg-refused d alg held given (b, e) =
      let (rest, quoted) = faithful.quoted (Algorithms.show alg) in
      elim (Result-cases (Algorithms.try_from (String.◌∷◌ "\"" rest))) [
        | inl (c, read) ↦ show-unquoted c rest ((try_from_iff (String.◌∷◌ "\"" rest) c).0 read)
        | inr (f, read) ↦
            let failed : data_try_from r (data_into_json r d)
                ≡ err ("failed to convert transaction_data_hashes_alg to HashAlgorithm" ∷ []) =
              rw (faithful.hashes d held, given, quoted, read) refl in
            absurd (cc)
      ]

  -- A response that names the hash algorithm of its transaction data is sent with that name in
  -- quotes, and no response is read from the form.
  pub from_x_www_form_urlencoded-alg :
      (d : TransactionDataResponse) (alg : HashAlgorithm) {q : String}
      → a.transaction_data_response ≡ some d
      → d.transaction_data_hashes_alg ≡ some alg
      → into_x_www_form_urlencoded r forms a ≡ ok q
      → ¬ IsOk (from_x_www_form_urlencoded r forms (as_bytes q))
  unfolding try_from_encoded into_encoded
  from_x_www_form_urlencoded-alg d alg given named h =
      lost_of_refused
        (λ (b, k).
          let f = into_encoded r a in
          let (_, _, k) =
            >>=-eq-ok (or_fail "failed to decode vp token" (r.vp_token_from_str f.vp_token)) _ k in
          let (_, _, k) =
            >>=-eq-ok (transpose (O.map r.submission_from_str f.presentation_submission)) _ k in
          let (_, _, k) =
            >>=-eq-ok
              (transpose (
                O.map (λ text. result_parsing_error (Token.id_token r) (try_from_string r text))
                  f.id_token))
              _ k in
          let (found, read, _) =
            >>=-eq-ok (transpose (O.map (data_try_from r) f.transaction_data_response)) _ k in
          alg-refused d alg given named
            (details-read a.transaction_data_response d given (found, read)))
        h
