-- ===== src/Utils.antt =====
-- utils.rs: lists that are not empty, and small helpers.
pub mod NonEmpty
pub mod Laws
use openid4vp.Common.{
  String, ◌<>◌, Bool, List, [], ◌∷◌, Result, ok, Anyhow, ◌>>=◌, Eq, contains, any,
}
use openid4vp.Json.{Json, string}

-- Is some item of `small` in `large`?
unfoldable pub contains_any {ℓ} : {A : Type ℓ} ⦃e : Eq A⦄ → List A → List A → Bool
contains_any large small = any (λ item. contains large item) small

-- The parameters are `serde_json::from_str` and `serde_json::from_value` at the type.
unfoldable pub from_string_or_value {ℓ} :
    {T : Type ℓ} → (String → Result Anyhow T) → (Json → Result Anyhow T) → Json → Result Anyhow T
from_string_or_value from_str from_value (string json_str) = from_str json_str
from_string_or_value from_str from_value value = from_value value

-- `generate_jwt`: `encode` is the base64url encoding without padding of a text's bytes and
-- `header` and `body` are already serialised; `sign` gives the encoded signature of a payload.
unfoldable pub generate_jwt :
    (String → String)
    → (String → Result Anyhow String)
    → Result Anyhow String
    → Result Anyhow String
    → Result Anyhow String
generate_jwt encode sign header body = do
  header_text ← header
  let header_b64 = encode header_text
  body_text ← body
  let body_b64 = encode body_text
  signature_b64 ← sign (header_b64 <> "." <> body_b64)
  ok (header_b64 <> "." <> body_b64 <> "." <> signature_b64)
