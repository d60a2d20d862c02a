-- ===== src/Kubernetes.antt =====
-- internal/infra/kubernetes: the Kubernetes client of the operator.
pub mod Updates
pub mod Effects
pub mod Modes
pub mod TemplateLaws
pub mod Rounds
mod Secrets
mod Template
mod Deployments
mod Jobs
mod Reconcile
mod Domain
pub mod DomainLaws
pub mod Survival
pub mod Stores
pub mod Cluster
pub mod Refinement
pub mod JobRefinement
pub mod Frames
pub mod Targets
pub mod Sent
pub mod JobStore
unfoldable pub use Secrets.*
unfoldable pub use Template.*
unfoldable pub use Deployments.*
unfoldable pub use Jobs.*
unfoldable pub use Reconcile.*
unfoldable pub use Domain.*
