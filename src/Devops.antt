-- ===== src/Devops.antt =====
-- internal/infra/azuredevops/queue.go: the client of the Azure DevOps REST interface.
pub mod Retries
pub mod Answers
pub mod Guards
pub mod Deletions
pub mod Cache
pub mod Effects
pub mod Requests
mod Client
mod Backoff
mod Queue
mod Agents
mod QueueId
pub mod Unused
pub mod Survival
pub mod Costs
pub mod Available
pub mod Pending
pub mod Lookups
unfoldable pub use Client.*
unfoldable pub use Backoff.*
unfoldable pub use Queue.*
unfoldable pub use Agents.*
unfoldable pub use QueueId.*
