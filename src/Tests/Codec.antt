-- ===== src/Tests/Codec.antt =====
-- Encodings that give back what they are given: a number is as many letters a and a letter b.
use openid4vp.Common.{
  ℕ, zero, suc, ◌+◌, String, ◌<>◌, code, Bool, true, false, ◌&&◌, List, [], ◌∷◌, some, Result, ok,
  err, Anyhow, ◌>>=◌, ◌≡◌, refl, ◌==◌, nat_eq, string_eq, beq_refl, if◌then◌else◌, arith, ap, ◌∙◌,
}
use text.Mathlib.TextEquality.{eq_iff}
use text.Mathlib.TextLemmas.{nil-append, cons-append}
use openid4vp.Common.Dict
use openid4vp.Common.Dict.{Dict}
use openid4vp.Json.{Json, json_eq, string, object, end, field}
use openid4vp.Signer.{Codec}
use openid4vp.Verifier.Client.{header}
use openid4vp.Verification.X509.{trim_end_matches}
use openid4vp.Verification.X509.Laws.{IsFaithful}

abbrev pub mark : ℕ → String → String
mark zero s = String.◌∷◌ "b" s
mark (suc n) s = String.◌∷◌ "a" (mark n s)

abbrev pub encode : List ℕ → String
encode [] = ""
encode (n ∷ ns) = mark n (encode ns)

abbrev pub decode_from : ℕ → String → List ℕ
decode_from k String.[] = []
decode_from k (String.◌∷◌ c s) = elim (code c == b'a') [
  | true ↦ decode_from (k + 1) s
  | false ↦ k ∷ decode_from 0 s
]

decode_from-mark : (k n : ℕ) (s : String) → decode_from k (mark n s) ≡ (k + n) ∷ decode_from 0 s
decode_from-mark k zero s = ground arith
decode_from-mark k (suc n) s = ground (arith, decode_from-mark (k + 1) n s)

pub decode-encode : (ns : List ℕ) → decode_from 0 (encode ns) ≡ ns
decode-encode [] = refl
decode-encode (n ∷ ns) = ground (arith, decode_from-mark 0 n (encode ns), decode-encode ns)

-- What stands before and after the first dot.
abbrev pub at_dot : String → String × String
at_dot String.[] = ("", "")
at_dot (String.◌∷◌ c s) = elim (code c == b'.') [
  | true ↦ ("", s)
  | false ↦ (String.◌∷◌ c (at_dot s).0, (at_dot s).1)
]

at_dot-mark : (n : ℕ) (s a b : String) → at_dot s ≡ (a, b) → at_dot (mark n s) ≡ (mark n a, b)
at_dot-mark zero s a b h = ground arith
at_dot-mark (suc n) s a b h = ground (arith, at_dot-mark n s a b h)

mark-append : (n : ℕ) (s t : String) → mark n s <> t ≡ mark n (s <> t)
mark-append zero s t = cons-append _ s t
mark-append (suc n) s t = cons-append _ (mark n s) t ∙ ap (String.◌∷◌ "a") (mark-append n s t)

pub at_dot-encode : (ns : List ℕ) (t : String) → at_dot (encode ns <> ("." <> t)) ≡ (encode ns, t)
at_dot-encode [] t = rw nil-append (rw cons-append (rw nil-append refl))
at_dot-encode (n ∷ ns) t =
    rw mark-append (at_dot-mark n (encode ns <> ("." <> t)) (encode ns) t (at_dot-encode ns t))

trim-mark :
    (n : ℕ) (s : String) → trim_end_matches b'=' s ≡ s → trim_end_matches b'=' (mark n s) ≡ mark n s
unfolding trim_end_matches
trim-mark zero String.[] h = refl
trim-mark zero (String.◌∷◌ c s) h = rw h refl
trim-mark (suc zero) s h = rw (trim-mark zero s h) refl
trim-mark (suc (suc n)) s h = rw (trim-mark (suc n) s h) refl

pub trim-encode : (ns : List ℕ) → trim_end_matches b'=' (encode ns) ≡ encode ns
unfolding trim_end_matches
trim-encode [] = refl
trim-encode (n ∷ ns) = trim-mark n (encode ns) (trim-encode ns)

-- The header that is printed and read: the algorithm, and the field that names the key.
abbrev pub headers : String → Json → Dict String Json
headers name key = ("alg", string "ES256") ∷ (name, key) ∷ []

-- An object of one field is a body; of the others only the header is printed.
abbrev pub to_text : Json → Json → Result Anyhow String
to_text expected (object (field k v end)) = ok "body"
to_text expected v = if v == expected then ok "header" else err []

pub prints_header :
    (name : String) (key : Json)
    → to_text (header "ES256" name key) (header "ES256" name key) ≡ ok "header"
prints_header name key = rw (beq_refl (header "ES256" name key)) refl

-- The three pieces of a JWT.
abbrev pub split : String → String × String × String
split t =
    let first : String × String = at_dot t in
    let second : String × String = at_dot first.1 in (first.0, second.0, second.1)

abbrev pub check : String → String × String × String → Result Anyhow Json
check key pieces =
    if key == "jwk" && pieces.0 == encode (1 ∷ []) && pieces.2 == encode (7 ∷ [])
    then ok (string pieces.1)
    else err ("not signed" ∷ [])

-- A codec for one header. The key verifies that header with the signature 7.
abbrev pub codec : String → Json → Codec String
codec name key = record {
  as_bytes = λ t. if t == "header" then 1 ∷ [] else 2 ∷ 3 ∷ [];
  url_encode = encode;
  url_decode = λ t. ok (decode_from 0 t);
  standard_encode = encode;
  standard_decode_no_pad = λ t. ok (decode_from 0 t);
  to_text = to_text (header "ES256" name key);
  headers_from_slice = λ b. ok (headers name key);
  split_jws = λ t. ok (split t);
  decode_verify = λ jwt jwk. check jwk (split jwt);
}

passed :
    (b : Bool) {t : String}
    → ◌≡◌ {A = Result Anyhow String} (if b then ok "header" else err []) (ok t)
    → b ≡ true
passed true h = refl
passed false h = absurd (ground arith)

headers_read :
    (name : String) (key : Json) (alg name' : String) (key' : Json) (t : String)
    → (name' == "alg") ≡ false
    → to_text (header "ES256" name key) (header alg name' key') ≡ ok t
    → (Dict.lookup "alg" (headers name key) ≡ some (string alg))
      × (Dict.lookup name' (headers name key) ≡ some key')
unfolding Dict.lookup
headers_read name key alg name' key' t e h =
    let same : header alg name' key' ≡ header "ES256" name key =
      (json_eq.beq_iff (header alg name' key') (header "ES256" name key)).0
        (passed (header alg name' key' == header "ES256" name key) h) in
    let alg_e : alg ≡ "ES256" = cc in
    let name_e : name' ≡ name = cc in
    let key_e : key' ≡ key = cc in
    (rw alg_e refl, ground (arith, eq_iff "alg" name', eq_iff name' "alg", eq_iff name name'))

pub split-encode :
    (a b : List ℕ) (c : String)
    → split (encode a <> ("." <> (encode b <> ("." <> c)))) ≡ (encode a, encode b, c)
split-encode a b c = rw (at_dot-encode a (encode b <> ("." <> c)), at_dot-encode b c) refl

pub codec-IsFaithful : (name : String) (key : Json) → IsFaithful (codec name key)
codec-IsFaithful name key = record {
  url = λ b. ap ok (decode-encode b);
  standard = λ b. rw (trim-encode b) (ap ok (decode-encode b));
  headers = λ alg name' key' t e f h.
      let (alg_e, key_e) = headers_read name key alg name' key' t e h in
      (headers name key, refl, alg_e, key_e);
  pieces = λ a b c. ap ok (split-encode a b (encode c));
}

-- The JWT that is made of a printed header, with the signature 7.
abbrev pub finish : Result Anyhow String → Result Anyhow String
finish printed = printed >>= λ h. ok (
    encode (if h == "header" then 1 ∷ [] else 2 ∷ 3 ∷ [])
    <> "."
    <> encode (2 ∷ 3 ∷ [])
    <> "."
    <> encode (7 ∷ []))
