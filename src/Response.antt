-- ===== src/Response.antt =====
-- core/response: the response of a wallet and how it is sent.
pub mod Token
pub mod Authorization
