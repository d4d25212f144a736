-- ===== src/Parameters.antt =====
-- core/authorization_request/parameters.rs
pub mod Prefix
pub mod ClientId
pub mod ResponseMode
pub mod ResponseType
pub mod Algorithms
