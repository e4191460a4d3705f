-- ===== src/App.antt =====
-- internal/app, internal/config and the commands under cmd: how the parts are put together and live.
pub mod Lifecycle
pub mod Lists
pub mod Config
pub mod Migrate
pub mod Startup
