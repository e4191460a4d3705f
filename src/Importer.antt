-- ===== src/Importer.antt =====
-- internal/importer: the reader of CSV rows, the batcher and the set of seen emails.
pub mod Batcher
pub mod Reader
