-- ===== src/Controller.antt =====
-- internal/interfaces/controller/azuredevops_controller.go.
mod Token
mod Status
mod Interval
mod Cleanup
mod PodEvent
mod Reconcile
mod Setup
pub mod Life
pub mod Stages
pub mod Marks
pub mod Releases
pub mod Lives
pub mod Survival
pub mod Returns
pub mod Lifetimes
pub mod Histories
pub mod Cleanups
pub mod Writes
pub mod Delays
pub mod Agreement
pub mod Quiet
pub mod Telling
pub mod Calm
pub mod Outcomes
pub mod Gentle
pub mod Entry
pub mod StatusWrites
pub mod Finalizers
pub mod Tokens
pub mod Removals
pub mod Names
pub mod Costs
pub mod Frames
pub mod Fleet
pub mod Progress
pub mod Endings
pub mod Rejected
pub mod Unseen
unfoldable pub use Token.*
unfoldable pub use Status.*
unfoldable pub use Interval.*
unfoldable pub use Cleanup.*
unfoldable pub use PodEvent.*
unfoldable pub use Reconcile.*
unfoldable pub use Setup.*
