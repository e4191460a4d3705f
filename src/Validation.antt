-- ===== src/Validation.antt =====
-- internal/validation: an email, the pipeline of stages, the score and the validator.
pub mod Types
pub mod Scoring
pub mod Pipeline
pub mod Validator
pub mod Stages
