-- ===== src/Verifier.antt =====
-- verifier: the verifier and its builder, its clients, and the requests that it builds.
pub mod Client
pub mod Party
pub mod ByReference
pub mod Checks
pub mod RequestBuilder
