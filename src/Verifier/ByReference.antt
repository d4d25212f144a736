-- ===== src/Verifier/ByReference.antt =====
-- verifier/by_reference.rs and verifier/request_builder.rs: how a request is sent.
use openid4vp.AuthorizationRequest.Signed.{RequestReference}

pub data ByReference : Type 0 where
  false : ByReference
  true : RequestReference → ByReference

pub data RequestType : Type 0 where
  plain : RequestType
  signed_jwt : ByReference → RequestType
