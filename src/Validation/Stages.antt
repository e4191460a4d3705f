-- ===== src/Validation/Stages.antt =====
-- internal/validation/stages: the seven stages, in the order of `app.New`.
pub mod Normalize
pub mod Syntax
pub mod Tld
pub mod Signals
pub mod Mx
pub mod Chain
