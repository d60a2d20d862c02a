-- ===== src/Kubernetes/Rounds.antt =====
-- The rounds of `reconcileDeploymentInternal`.
use azdo_kube_operator.Base.{
  pos, ◌*◌, ℕ, zero, suc, ◌+◌, ◌≤◌, Bool, true, false, ◌≡◌, refl, none, some, [], arith, ◌∷◌,
  count_if,
}
use azdo_kube_operator.Kube.{Deployment, Reply, reply, fail, conflict, fault, NamespacedName}
use azdo_kube_operator.Devops.{second}
use azdo_kube_operator.World.{Env, State, Log, Call, Action, Result, ok, err, panic, resume, raise}
use azdo_kube_operator.Kubernetes.{
  needs_update, updated_deployment, update_existing, send_update, after_update, attempt_deployment,
  after_get, create_deployment, Attempt, finished, retry, follow_attempt, deployment_loop, key_of,
}
use azdo_kube_operator.Kubernetes.Updates.{IsReflexive, updated_deployment_settles}

abbrev pub is_deployment_write : Call → Bool
is_deployment_write (Call.create_deployment d) = true
is_deployment_write (Call.update_deployment d) = true
is_deployment_write _ = false

abbrev pub deployment_writes : Log → ℕ
deployment_writes = count_if is_deployment_write

module _ (env : Env) (desired : Deployment) where
  abbrev get_call : Call
  get_call = Call.get_deployment (key_of desired.meta)

  after_get_writes :
      (n : ℕ) (r : Reply Deployment) (s : State)
      → deployment_writes (after_get env n desired r s).1.log ≤ deployment_writes s.log + 1
  unfolding after_get create_deployment update_existing send_update after_update
  after_get_writes n (reply existing) s = ground arith
  after_get_writes n (fail e) s = ground arith

  attempt_writes :
      (n : ℕ) (s : State)
      → deployment_writes (attempt_deployment env n desired s).1.log ≤ deployment_writes s.log + 1
  unfolding attempt_deployment
  attempt_writes n s =
      after_get_writes n (env.get_deployment s.log (key_of desired.meta))
        (record s { log = get_call ∷ s.log })

  follow_writes :
      (x : Result Attempt) (m : Action Unit) (n : ℕ) (s : State)
      → deployment_writes (m s).1.log ≤ deployment_writes s.log + n
      → deployment_writes (resume x (λ a. follow_attempt a m) raise s).1.log
        ≤ deployment_writes s.log + n
  follow_writes (ok finished) m n s h = omega arith
  follow_writes (ok retry) m n s h = h
  follow_writes (err e) m n s h = omega arith
  follow_writes panic m n s h = omega arith

  -- `n` rounds write a Deployment `n` times at most.
  pub deployment_loop_writes :
      (n retries : ℕ) (s : State)
      → deployment_writes (deployment_loop env n retries desired s).1.log
        ≤ deployment_writes s.log + n
  unfolding deployment_loop
  deployment_loop_writes zero retries s = omega arith
  deployment_loop_writes (suc n) retries s =
      let s' = (attempt_deployment env retries desired s).1 in
      omega (
        arith,
        attempt_writes retries s,
        follow_writes (attempt_deployment env retries desired s).0
            (deployment_loop env n (suc retries) desired) n s'
            (deployment_loop_writes n (suc retries) s'),
      )

  -- A round that meets a conflict pauses, a second longer each time.
  attempt_conflict :
      (existing : Deployment) (n : ℕ) (s : State)
      → let u = updated_deployment env.deep_equal existing desired in
        env.get_deployment s.log (key_of desired.meta) ≡ reply existing
        → needs_update env.deep_equal existing.spec desired.spec ≡ true
        → env.update_deployment (get_call ∷ s.log) u ≡ some conflict
        → attempt_deployment env n desired s ≡ (
          ok retry,
          record s {
            log = Call.sleep (pos (second * suc n)) ∷ Call.update_deployment u ∷ get_call ∷ s.log;
          },
        )
  unfolding attempt_deployment after_get update_existing send_update after_update
  attempt_conflict existing n s got differs refused = rw (got, differs, refused)

  -- Where every read shows a difference and every update is a conflict, all the rounds are made, each
  -- writes once, and the loop ends in the error that says so.
  pub deployment_loop_conflicts :
      (existing : Deployment)
      → needs_update env.deep_equal existing.spec desired.spec ≡ true
      → ((l : Log) (k : NamespacedName) → env.get_deployment l k ≡ reply existing)
      → ((l : Log) (d : Deployment) → env.update_deployment l d ≡ some conflict)
      → (n retries : ℕ) (s : State)
      → ((deployment_loop env n retries desired s).0
          ≡ err (fault "failed to update Deployment after retries" []))
        × (deployment_writes (deployment_loop env n retries desired s).1.log
            ≡ deployment_writes s.log + n)
  unfolding deployment_loop
  deployment_loop_conflicts existing differs reads conflicts zero retries s = (refl, omega arith)
  deployment_loop_conflicts existing differs reads conflicts (suc n) retries s =
      rw (attempt_conflict existing retries s (reads _ _) differs (conflicts _ _)) (
        let (e, w) = deployment_loop_conflicts existing differs reads conflicts n (suc retries) _ in
        (e, omega (arith, w)))

  -- Where DeepEqual is reflexive, a round that reads a Deployment with a difference and whose
  -- update is accepted writes the updated Deployment once; if that is what the next read gives, the
  -- next round only reads.
  pub attempt_deployment_settles :
      IsReflexive env.deep_equal
      → (existing : Deployment) (n m : ℕ) (s : State)
      → let u = updated_deployment env.deep_equal existing desired in
        env.get_deployment s.log (key_of desired.meta) ≡ reply existing
        → needs_update env.deep_equal existing.spec desired.spec ≡ true
        → env.update_deployment (get_call ∷ s.log) u ≡ none
        → env.get_deployment (Call.update_deployment u ∷ get_call ∷ s.log) (key_of desired.meta)
          ≡ reply u
        → let s' = (attempt_deployment env n desired s).1 in
          (s'.log ≡ Call.update_deployment u ∷ get_call ∷ s.log)
          × (attempt_deployment env m desired s'
              ≡ (ok finished, record s' { log = get_call ∷ s'.log }))
  unfolding attempt_deployment after_get update_existing send_update after_update
  attempt_deployment_settles r existing n m s got differs accepted read_back =
      rw (got, differs, accepted)
        (refl, rw (read_back, (updated_deployment_settles env.deep_equal r existing desired).0))
