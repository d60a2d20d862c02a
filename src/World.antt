-- ===== src/World.antt =====
-- What the operator asks of its surroundings, and the actions that ask it.
mod Http
mod Calls
mod Answers
mod Monad
pub mod Footprint
pub mod Inversion
pub mod Caches
pub mod Survival
pub mod Views
pub mod Yields
pub mod Returns
pub use Http.*
pub use Calls.*
pub use Answers.*
pub use Monad.*
