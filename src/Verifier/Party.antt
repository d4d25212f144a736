-- ===== src/Verifier/Party.antt =====
-- verifier/mod.rs: `Verifier` and `VerifierBuilder`.
use openid4vp.Common.{String, [], ◌∷◌, Option, none, some, Result, ok, err, Anyhow}
use openid4vp.Object.{UntypedObject, TypedParameter, insert}
use openid4vp.Verifier.Client.{Client}

pub record Verifier : Type 0 where
  pub client : Client
  pub default_request_params : UntypedObject
  pub submission_endpoint : Option String

pub record VerifierBuilder : Type 0 where
  pub client : Option Client
  pub default_request_params : UntypedObject
  pub submission_endpoint : Option String

-- `Verifier::builder`
unfoldable pub builder : VerifierBuilder
builder = record {
  client = none;
  default_request_params = record { map = [] };
  submission_endpoint = none;
}

-- `VerifierBuilder::build`
unfoldable pub build : VerifierBuilder → Result Anyhow Verifier
build b = elim b.client [
  | none ↦ err ("client is required, see `with_client`" ∷ [])
  | some client ↦ ok (record {
    client = client;
    default_request_params = b.default_request_params;
    submission_endpoint = b.submission_endpoint;
  })
]

unfoldable pub with_default_request_parameter {ℓ} :
    {T : Type ℓ} → TypedParameter T → T → VerifierBuilder → VerifierBuilder
unfolding insert
with_default_request_parameter p t b = record b {
  default_request_params = (insert p t b.default_request_params).0;
}

unfoldable pub with_client : Client → VerifierBuilder → VerifierBuilder
with_client client b = record b { client = some client }

unfoldable pub with_submission_endpoint : String → VerifierBuilder → VerifierBuilder
with_submission_endpoint endpoint b = record b { submission_endpoint = some endpoint }
