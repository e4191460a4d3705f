-- ===== src/Lookups.antt =====
-- The sets of domains and prefixes that the stages consult: internal/validation/disposable/registry.go,
-- internal/validation/role/detector.go, internal/validation/domain and the set of
-- internal/validation/stages/tld.go. Each operation holds its lock throughout, so it is one step.
pub mod Registry
pub mod Detector
pub mod Classifier
pub mod Grouper
