-- ===== src/Verification.antt =====
-- core/authorization_request/verification: verification of a request by a wallet.
pub mod Metadata
pub mod Validation
pub mod Request
pub mod X509
pub mod Did
