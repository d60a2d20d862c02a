-- ===== src/Usecase/Bounds.antt =====
-- The number of agents that `determineDesiredReplicas` asks for.
use azdo_kube_operator.Base.{
  ℕ, refl, inl, inr, pos_part, ◌<ℤ◌, ◌+◌, ◌-◌, ◌*◌, ◌/◌, ◌≤◌, ◌<◌, false, Bool-cases, ◌==◌, ◌≡◌,
  ◌⊎◌, ℤ, pos, ◌≤ℤ◌, int32, int32_small, arith,
}
use azdo_kube_operator.Kube.{AzureDevOpsSpec}
use azdo_kube_operator.Usecase.{
  scaled, at_most, at_least, replica_bounds, determine_desired_replicas, calculate_requeue_interval,
  requeue_interval,
}

-- The bounds are positive and in order, whatever the resource says.
pub replica_bounds_ordered :
    (spec : AzureDevOpsSpec) → let (lo, hi) = replica_bounds spec in (pos 1 ≤ℤ lo) × (lo ≤ℤ hi)
unfolding replica_bounds
replica_bounds_ordered spec = ground arith

-- Every wrapped value is held between the bounds.
hold_bounds :
    (lo hi x : ℤ)
    → lo ≤ℤ hi
    → (lo ≤ℤ at_most hi (at_least lo x)) × (at_most hi (at_least lo x) ≤ℤ hi)
hold_bounds lo hi x h = ground arith

scaled_bounds : (q : ℕ) (lo hi : ℤ) → lo ≤ℤ hi → (lo ≤ℤ scaled q lo hi) × (scaled q lo hi ≤ℤ hi)
unfolding scaled
scaled_bounds q lo hi h = elim (Bool-cases (q == 0)) [
  | inl e ↦ rw e (omega arith, h)
  | inr e ↦ rw e (hold_bounds lo hi (int32 ((q + 5 - 1) / 5)) h)
]

-- For every queue and every resource the number of agents lies between the effective bounds, also
-- where the conversion to 32 bits wraps, and is at least 1.
pub determine_desired_replicas_bounds :
    (q : ℕ) (spec : AzureDevOpsSpec)
    → let (lo, hi) = replica_bounds spec in
      (lo ≤ℤ determine_desired_replicas q spec)
      × (determine_desired_replicas q spec ≤ℤ hi)
      × (pos 1 ≤ℤ determine_desired_replicas q spec)
unfolding determine_desired_replicas
determine_desired_replicas_bounds q spec =
    let (positive, ordered) = replica_bounds_ordered spec in
    let (above, below) = scaled_bounds q (replica_bounds spec).0 (replica_bounds spec).1 ordered in
    (above, below, omega arith)

-- A resource whose bounds are positive and in order gets the bounds that it names.
replica_bounds-eq :
    (spec : AzureDevOpsSpec) (lo hi : ℕ)
    → spec.min_replicas ≡ pos lo
    → spec.max_replicas ≡ pos hi
    → 1 ≤ lo
    → lo ≤ hi
    → replica_bounds spec ≡ (pos lo, pos hi)
unfolding replica_bounds
replica_bounds-eq spec lo hi e f h k = ground arith

held_enough :
    (q n lo hi : ℕ)
    → 1 ≤ lo
    → lo ≤ hi
    → q ≤ 5 * n
    → 5 * n < q + 5
    → let d = at_most (pos hi) (at_least (pos lo) (pos n)) in
      ((d ≡ pos hi) ⊎ (pos q ≤ℤ pos (5 * pos_part d)))
      × ((d ≡ pos lo) ⊎ (pos (5 * pos_part d) <ℤ pos (q + 5)))
held_enough q n lo hi a b c e = ground arith

scaled_enough :
    (q lo hi : ℕ)
    → 1 ≤ lo
    → lo ≤ hi
    → q < 10_737_418_236
    → let d = scaled q (pos lo) (pos hi) in
      ((d ≡ pos hi) ⊎ (pos q ≤ℤ pos (5 * pos_part d)))
      × ((d ≡ pos lo) ⊎ (pos (5 * pos_part d) <ℤ pos (q + 5)))
unfolding scaled
scaled_enough q lo hi a b c = elim (Bool-cases (q == 0)) [
  | inl e ↦ rw e (inr (ground arith), inl refl)
  | inr e ↦
      rw (e, int32_small ((q + 5 - 1) / 5) (omega arith))
        (held_enough q ((q + 5 - 1) / 5) lo hi a b (omega arith) (ground arith))
]

held_mono :
    (m n lo hi : ℕ)
    → m ≤ n
    → lo ≤ hi
    → at_most (pos hi) (at_least (pos lo) (pos m)) ≤ℤ at_most (pos hi) (at_least (pos lo) (pos n))
held_mono m n lo hi h k = ground arith

scaled_mono :
    (q r lo hi : ℕ)
    → q ≤ r
    → lo ≤ hi
    → r < 10_737_418_236
    → scaled q (pos lo) (pos hi) ≤ℤ scaled r (pos lo) (pos hi)
unfolding scaled
scaled_mono q r lo hi h k w = elim (Bool-cases (q == 0)) [
  | inl e ↦ rw e (scaled_bounds r (pos lo) (pos hi) (omega arith)).0
  | inr e ↦
      let e' : (r == 0) ≡ false = ground arith in
      rw
        (
          e,
          e',
          int32_small ((q + 5 - 1) / 5) (omega arith),
          int32_small ((r + 5 - 1) / 5) (omega arith),
        )
        (held_mono ((q + 5 - 1) / 5) ((r + 5 - 1) / 5) lo hi (omega arith) k)
]

module _ (spec : AzureDevOpsSpec) (lo hi : ℕ) (named_min : spec.min_replicas ≡ pos lo)
    (named_max : spec.max_replicas ≡ pos hi) (positive : 1 ≤ lo) (ordered : lo ≤ hi) where
  -- Where the resource names bounds with 1 ≤ minimum ≤ maximum and the queue is shorter than
  -- 10,737,418,236: unless the number of agents is the maximum, it serves the queue at five jobs to
  -- an agent, and unless it is the minimum, one agent fewer would leave a job over.
  pub determine_desired_replicas_enough :
      (q : ℕ)
      → q < 10_737_418_236
      → let d = determine_desired_replicas q spec in
        ((d ≡ pos hi) ⊎ (pos q ≤ℤ pos (5 * pos_part d)))
        × ((d ≡ pos lo) ⊎ (pos (5 * pos_part d) <ℤ pos (q + 5)))
  unfolding determine_desired_replicas
  determine_desired_replicas_enough q small =
      rw (replica_bounds-eq spec lo hi named_min named_max positive ordered)
        (scaled_enough q lo hi positive ordered small)

  -- Where the resource names bounds with 1 ≤ minimum ≤ maximum, a longer queue, if shorter than
  -- 10,737,418,236, never gets fewer agents.
  pub determine_desired_replicas_mono :
      (q r : ℕ)
      → q ≤ r
      → r < 10_737_418_236
      → determine_desired_replicas q spec ≤ℤ determine_desired_replicas r spec
  unfolding determine_desired_replicas
  determine_desired_replicas_mono q r h small =
      rw (replica_bounds-eq spec lo hi named_min named_max positive ordered)
        (scaled_mono q r lo hi h ordered small)

-- The interval is the short one for every queue and every resource: since at least one agent is
-- always wanted, the longer interval for an idle pool is never taken.
pub calculate_requeue_interval_short :
    (q : ℕ) (spec : AzureDevOpsSpec)
    → calculate_requeue_interval q (determine_desired_replicas q spec) ≡ pos requeue_interval
unfolding calculate_requeue_interval
calculate_requeue_interval_short q spec = ground (arith, determine_desired_replicas_bounds q spec)
