-- ===== src/Kube.antt =====
-- The Kubernetes objects that the operator reads and writes: the AzureDevOps resource of
-- api/v1beta1/azuredevops_types.go, and of the objects of Kubernetes the fields that the code names.
-- Whatever else an object holds stands in its field `rest`, by its serialised form, so that an
-- update that starts from a copy of an object is seen to keep it.
mod Meta
mod Errors
mod Pods
mod Workloads
mod Resource
pub mod Beta0
pub mod Versions
pub use Meta.*
pub use Errors.*
pub use Pods.*
pub use Workloads.*
pub use Resource.*
