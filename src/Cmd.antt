-- ===== src/Cmd.antt =====
-- cmd/main.go: the start of the operator.
mod Options
mod Main
pub mod Plan
pub mod Safety
unfoldable pub use Options.*
unfoldable pub use Main.*
