-- ===== src/Cache.antt =====
-- internal/cache: the in-memory cache over hashicorp's LRU, the one over Redis, their cascade, the
-- keys and the jitter of times to live. Times and durations are numbers of one unit.
pub mod Lru
pub mod Redis
pub mod Multi
pub mod Ttl
pub mod Connection
