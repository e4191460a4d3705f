-- ===== src/Dns.antt =====
-- internal/dns: the client of the local resolver, the adaptive limit of queries in flight and the
-- cached lookup of mail servers.
pub mod Types
pub mod Semaphore
pub mod Aimd
pub mod Client
pub mod Resolver
pub mod Lookup
pub mod Settings
