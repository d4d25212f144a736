-- ===== src/AuthorizationRequest.antt =====
-- core/authorization_request: the request object and its typed parameters.
pub mod Typed
pub mod Object
pub mod Signed
pub mod Url
