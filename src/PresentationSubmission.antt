-- ===== src/PresentationSubmission.antt =====
-- core/presentation_submission.rs, and the validation of core/presentation_definition.rs against
-- the inputs of a submission.
pub mod Types
pub mod Grouping
pub mod Find
pub mod Requirement
