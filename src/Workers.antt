-- ===== src/Workers.antt =====
-- internal/workers: the pool of workers, the repetition of a call and its delays.
pub mod Pool
pub mod Backoff
pub mod Retry
