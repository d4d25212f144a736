-- ===== src/CredentialFormat.antt =====
-- core/credential_format/mod.rs
pub mod Designation
pub mod Payload
pub mod Format
