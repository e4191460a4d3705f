-- ===== src/Storage.antt =====
-- The rest of internal/storage: the tables of domains, and transactions.
pub mod Domains
pub mod Disposable
pub mod Transactions
