-- ===== src/Dcql.antt =====
-- core/dcql.rs: queries in the Digital Credentials Query Language.
pub mod Query
pub mod Authority
