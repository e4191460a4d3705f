-- ===== src/Server.antt =====
-- internal/server: the handlers of the HTTP API, from a decoded request to the reply.
pub mod Http
pub mod JobHandlers
pub mod ImportHandlers
pub mod ValidateHandlers
pub mod AdminHandlers
pub mod StatusPage
pub mod AdminOps
pub mod Health
pub mod Middleware
pub mod Routes
