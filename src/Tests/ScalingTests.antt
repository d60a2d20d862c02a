-- ===== src/Tests/ScalingTests.antt =====
-- The number of agents and the delays at concrete values.
use azdo_kube_operator.Base.{◌≡◌, refl, ◌⊎◌, ◌≤ℤ◌, ◌<ℤ◌, pos, pos_part, ◌*◌, ◌+◌, ◌^◌, int32, arith}
use azdo_kube_operator.Devops.{minute}
use azdo_kube_operator.Usecase.{
  determine_desired_replicas, replica_bounds, calculate_requeue_interval, requeue_interval, scaled,
}
use azdo_kube_operator.Usecase.Bounds.{
  determine_desired_replicas_bounds, determine_desired_replicas_enough,
  calculate_requeue_interval_short,
}
use azdo_kube_operator.Controller.{interval_since}
use azdo_kube_operator.Controller.Delays.{
  interval_since_doubles, interval_since_vanishes, at_most_five_minutes,
}
use azdo_kube_operator.Tests.Fixture.{sample}

-- Eleven jobs are three agents.
desired_of_eleven : determine_desired_replicas 11 sample.spec ≡ pos 3
unfolding determine_desired_replicas scaled replica_bounds int32
desired_of_eleven = refl

determine_desired_replicas_bounds_example :
    let (lo, hi) = replica_bounds sample.spec in
    (lo ≤ℤ determine_desired_replicas 11 sample.spec)
    × (determine_desired_replicas 11 sample.spec ≤ℤ hi)
    × (pos 1 ≤ℤ determine_desired_replicas 11 sample.spec)
determine_desired_replicas_bounds_example = determine_desired_replicas_bounds 11 sample.spec

determine_desired_replicas_enough_example :
    let d = determine_desired_replicas 11 sample.spec in
    ((d ≡ pos 4) ⊎ (pos 11 ≤ℤ pos (5 * pos_part d)))
    × ((d ≡ pos 1) ⊎ (pos (5 * pos_part d) <ℤ pos (11 + 5)))
determine_desired_replicas_enough_example =
    determine_desired_replicas_enough sample.spec 1 4 refl refl (omega arith) (omega arith) 11
      (omega arith)

calculate_requeue_interval_short_example :
    calculate_requeue_interval 0 (determine_desired_replicas 0 sample.spec) ≡ pos requeue_interval
calculate_requeue_interval_short_example = calculate_requeue_interval_short 0 sample.spec

interval_since_doubles_example :
    interval_since (2 * (5 * minute) + 7) ≡ pos (at_most_five_minutes (minute * 2 ^ 2))
interval_since_doubles_example = interval_since_doubles 2 7 (omega arith) (omega arith)

interval_since_vanishes_example : interval_since (265 * minute) ≡ pos 0
interval_since_vanishes_example = interval_since_vanishes (265 * minute) (omega arith)
