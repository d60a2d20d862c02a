-- ===== src/Usecase/Scaling.antt =====
-- `determineDesiredReplicas` and `calculateRequeueInterval`. The length of the queue is a count, so
-- it is a natural number; `int32` is Go's conversion.
use azdo_kube_operator.Base.{
  ℕ, ◌+◌, ◌-◌, ◌*◌, ◌/◌, ◌||◌, ℤ, pos, int32, ltb, ltb_ℤ, ◌==◌, if◌then◌else◌,
}
use azdo_kube_operator.Kube.{AzureDevOpsSpec}
use azdo_kube_operator.Devops.{second}

abbrev pub jobs_per_replica : ℕ
jobs_per_replica = 5

abbrev pub requeue_interval : ℕ
requeue_interval = 30 * second

-- The two bounds before they are put in order.
unfoldable pub min_replicas : AzureDevOpsSpec → ℤ
min_replicas spec = if ltb_ℤ (pos 0) spec.min_replicas then spec.min_replicas else pos 1

unfoldable pub max_replicas : AzureDevOpsSpec → ℤ
max_replicas spec = if ltb_ℤ (pos 0) spec.max_replicas then spec.max_replicas else pos 10

-- Swapped where the smaller is the greater.
unfoldable pub replica_bounds : AzureDevOpsSpec → ℤ × ℤ
unfolding min_replicas max_replicas
replica_bounds spec =
    if ltb_ℤ (max_replicas spec) (min_replicas spec)
    then (max_replicas spec, min_replicas spec)
    else (min_replicas spec, max_replicas spec)

abbrev pub at_least : ℤ → ℤ → ℤ
at_least lo n = if ltb_ℤ n lo then lo else n

abbrev pub at_most : ℤ → ℤ → ℤ
at_most hi n = if ltb_ℤ hi n then hi else n

-- By the ordered bounds: one agent for five jobs, rounded up, and held between them.
unfoldable pub scaled : ℕ → ℤ → ℤ → ℤ
scaled queue_length lo hi =
    if queue_length == 0
    then lo
    else at_most hi (at_least lo (int32 ((queue_length + jobs_per_replica - 1) / jobs_per_replica)))

unfoldable pub determine_desired_replicas : ℕ → AzureDevOpsSpec → ℤ
determine_desired_replicas queue_length spec =
    let (lo, hi) = replica_bounds spec in scaled queue_length lo hi

unfoldable pub calculate_requeue_interval : ℕ → ℤ → ℤ
calculate_requeue_interval queue_length replicas =
    if ltb 0 queue_length || ltb_ℤ (pos 0) replicas
    then pos requeue_interval
    else pos (requeue_interval * 2)
