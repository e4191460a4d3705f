-- ===== src/Typo.antt =====
-- internal/validation/typo: the edit distance and the corrector of domains.
pub mod Distance
pub mod Edits
mod Rows
pub mod Shortest
pub mod Corrector
mod Scan
pub mod Suggest
pub mod Buckets
