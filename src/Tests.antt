-- ===== src/Tests.antt =====
-- The theorems at concrete inputs.
mod Submission
mod Requests
mod Values
mod Codec
mod Jwt
mod Metadata
mod Sent
mod Built
mod Replies
