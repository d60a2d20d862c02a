-- ===== src/Controller/Interval.antt =====
-- `calculateRequeueInterval`. A time since a failure is not negative; its minutes divided by five
-- and cut to an integer are exact for every shift below 64, and 64 or more where they are not.
use azdo_kube_operator.Base.{
  ℕ, ◌-◌, ◌*◌, ◌/◌, ◌^◌, Option, none, some, ℤ, pos, int64, ltb_ℤ, if◌then◌else◌,
}
use azdo_kube_operator.Kube.{Time}
use azdo_kube_operator.World.{Env, Action, pure, ◌>>=◌, Call, call}
use azdo_kube_operator.Devops.{minute}

abbrev pub default_requeue_interval : ℕ
default_requeue_interval = minute

abbrev pub max_requeue_interval : ℕ
max_requeue_interval = 5 * minute

-- By the power of two that the shift gives.
unfoldable pub interval_of : ℕ → ℤ
unfolding int64
interval_of power =
    let interval = int64 (default_requeue_interval * power) in
    if ltb_ℤ (pos max_requeue_interval) interval then pos max_requeue_interval else interval

-- By the nanoseconds since the failure.
unfoldable pub interval_since : ℕ → ℤ
unfolding interval_of
interval_since elapsed = interval_of (2 ^ (elapsed / (5 * minute)))

module _ (env : Env) where
  unfoldable pub failure_interval : Option Time → Action ℤ
  unfolding interval_since
  failure_interval none = pure (pos default_requeue_interval)
  failure_interval (some failed_at) = do
    now ← call Call.clock env.clock
    pure (interval_since (now - failed_at))
