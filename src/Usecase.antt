-- ===== src/Usecase.antt =====
-- internal/app/usecase/reconcile.go.
pub mod Bounds
pub mod Settled
pub mod Progress
mod Scaling
mod Handle
unfoldable pub use Scaling.*
unfoldable pub use Handle.*
