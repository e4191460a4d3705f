-- ===== src/Text.antt =====
-- Go strings as their bytes, and the functions of the standard library's `strings` package that the
-- program calls.
mod Defs
pub mod Equality
pub mod Lines
unfoldable pub use Defs.*
