-- ===== src/Parameters/Algorithms.antt =====
-- core/authorization_request/parameters.rs: `HashAlgorithm` and `HttpMethodForAuth`.
use text.Mathlib.TextEquality.{eq_iff}
use openid4vp.Common.{
  String, ◌≡◌, refl, ◌↔◌, Result, Anyhow, ok, err, [], ◌∷◌, ◌==◌, string_eq, if◌then◌else◌, arith,
}

pub data HashAlgorithm : Type 0 where
  sha256 sha384 sha512 : HashAlgorithm

-- `Display for HashAlgorithm`, which `From<HashAlgorithm> for String` calls.
unfoldable pub show : HashAlgorithm → String
show sha256 = "sha-256"
show sha384 = "sha-384"
show sha512 = "sha-512"

-- `TryFrom<String> for HashAlgorithm`
unfoldable pub try_from : String → Result Anyhow HashAlgorithm
try_from value =
    if value == "sha-256"
    then ok sha256
    else if value == "sha-384"
    then ok sha384
    else if value == "sha-512"
    then ok sha512
    else err ("Unsupported hash algorithm" ∷ [])

try_from-show : (a : HashAlgorithm) → try_from (show a) ≡ ok a
unfolding try_from show
try_from-show sha256 = refl
try_from-show _ = refl

show_of_try_from : (s : String) (a : HashAlgorithm) → try_from s ≡ ok a → show a ≡ s
unfolding try_from show
show_of_try_from s a h = ground (arith, eq_iff s "sha-256", eq_iff s "sha-384", eq_iff s "sha-512")

-- A text is read as a hash algorithm exactly when it is what the algorithm is printed as.
pub try_from_iff : (s : String) (a : HashAlgorithm) → (try_from s ≡ ok a) ↔ (show a ≡ s)
try_from_iff s a = (show_of_try_from s a, λ e. rw (← e) (try_from-show a))

pub data HttpMethodForAuth : Type 0 where
  get post : HttpMethodForAuth

-- `From<HttpMethodForAuth> for String`
unfoldable pub method_into_string : HttpMethodForAuth → String
method_into_string get = "get"
method_into_string post = "post"

-- `TryFrom<String> for HttpMethodForAuth`
unfoldable pub method_try_from : String → Result Anyhow HttpMethodForAuth
method_try_from value =
    if value == "get"
    then ok get
    else if value == "post"
    then ok post
    else err ("Error parsing http method for Auth" ∷ [])

method_try_from-into_string :
    (m : HttpMethodForAuth) → method_try_from (method_into_string m) ≡ ok m
unfolding method_try_from method_into_string
method_try_from-into_string get = refl
method_try_from-into_string _ = refl

method_into_string_of_try_from :
    (s : String) (m : HttpMethodForAuth) → method_try_from s ≡ ok m → method_into_string m ≡ s
unfolding method_try_from method_into_string
method_into_string_of_try_from s m h = ground (arith, eq_iff s "get", eq_iff s "post")

-- A text is read as an HTTP method exactly when it is what the method is printed as.
pub method_try_from_iff :
    (s : String) (m : HttpMethodForAuth) → (method_try_from s ≡ ok m) ↔ (method_into_string m ≡ s)
method_try_from_iff s m =
    (method_into_string_of_try_from s m, λ e. rw (← e) (method_try_from-into_string m))
