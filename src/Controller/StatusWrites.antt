-- ===== src/Controller/StatusWrites.antt =====
-- What `updateStatus` writes, and how often.
use azdo_kube_operator.Base.{
  ℕ, zero, suc, ◌+◌, ◌≤◌, ◌≡◌, refl, ⊤, Bool, true, false, String, Option, none, some, ◌∷◌, ℤ,
  count_if, arith,
}
use azdo_kube_operator.Kube.{
  AzureDevOps, NamespacedName, named, Message, Reply, reply, fail, ApiError, Condition,
}
use azdo_kube_operator.World.{
  Env, State, Call, Log, Action, Result, ok, err, panic, resume, raise, call,
}
use azdo_kube_operator.World.Footprint.{
  Adds, Extends-trans, same, more, Adds-pure, Adds-call, Adds-bind, adds_rules,
}
use azdo_kube_operator.Controller.{
  update_status, status_loop, status_round, write_status, after_status_update, Flow, stop, next,
  follow_flow, merged_status, ready_condition,
}

-- What is written is an object that was read, with other counts and conditions.
pub record Merges (cr latest written : AzureDevOps) : Type 0 where
  pub meta_kept : written.meta ≡ latest.meta
  pub spec_kept : written.spec ≡ latest.spec
  pub failed_check_kept : written.status.last_failed_check ≡ latest.status.last_failed_check
  pub scaling_time_kept : written.status.last_scaling_time ≡ latest.status.last_scaling_time
  pub current_set : written.status.current_agents ≡ cr.status.current_agents
  pub queued_set : written.status.queued_jobs ≡ cr.status.queued_jobs
  pub desired_set : written.status.desired_agents ≡ cr.status.desired_agents
  pub ready_set : written.status.ready_agents ≡ cr.status.ready_agents

module _ (env : Env) (cr : AzureDevOps) where
  abbrev pub status_key : NamespacedName
  status_key = named cr.meta.name cr.meta.namespace

  -- The calls of an update of the status.
  pub data StatusCalls : Call → Type 0 where
    reads : StatusCalls (Call.get_resource status_key)
    clocks : StatusCalls Call.clock
    sleeps : {d : ℤ} → StatusCalls (Call.sleep d)
    writes :
        {latest written : AzureDevOps} (l : Log)
        → env.get_resource l status_key ≡ reply latest
        → Merges cr latest written
        → StatusCalls (Call.update_status written)

  module _ (phase : String) (message : Message) where
    after_status_update-StatusCalls :
        (i : ℕ) (o : Option ApiError) → Adds StatusCalls (after_status_update env i o)
    unfolding after_status_update
    after_status_update-StatusCalls i none = Adds-pure stop
    after_status_update-StatusCalls i (some e) = search (adds_rules, sleeps)

    merged_status-Merges :
        (latest : AzureDevOps) (c : Condition)
        → Merges cr latest (record latest { status = merged_status env latest.status cr.status c })
    unfolding merged_status
    merged_status-Merges latest c = record {
      meta_kept = refl;
      spec_kept = refl;
      failed_check_kept = refl;
      scaling_time_kept = refl;
      current_set = refl;
      queued_set = refl;
      desired_set = refl;
      ready_set = refl;
    }

    write_status-StatusCalls :
        (i : ℕ) (r : Reply AzureDevOps) (l : Log)
        → env.get_resource l status_key ≡ r
        → Adds StatusCalls (write_status env cr phase message i r)
    unfolding write_status
    write_status-StatusCalls i (fail e) l got = Adds-pure stop
    write_status-StatusCalls i (reply latest) l got =
        Adds-bind (call Call.clock env.clock) _ (Adds-call _ _ clocks) λ now.
          let condition = ready_condition phase message now in
          let updated = record latest {
            status = merged_status env latest.status cr.status condition;
          } in
          Adds-bind (call (Call.update_status updated) (λ l. env.update_status l updated)) _
            (Adds-call _ _ (writes l got (merged_status-Merges latest condition)))
            (after_status_update-StatusCalls i)

    status_round-StatusCalls : (i : ℕ) → Adds StatusCalls (status_round env cr phase message i)
    unfolding status_round
    status_round-StatusCalls i = record {
      at = λ s. Extends-trans (more reads same) (
          (write_status-StatusCalls i (env.get_resource s.log status_key) s.log refl).at
            (record s { log = Call.get_resource status_key ∷ s.log }));
    }

    follow_flow-StatusCalls :
        (flow : Flow) (m : Action ⊤) → Adds StatusCalls m → Adds StatusCalls (follow_flow flow m)
    follow_flow-StatusCalls stop m k = Adds-pure tt
    follow_flow-StatusCalls next m k = k

    status_loop-StatusCalls : (n i : ℕ) → Adds StatusCalls (status_loop env cr phase message n i)
    unfolding status_loop
    status_loop-StatusCalls zero i = Adds-pure tt
    status_loop-StatusCalls (suc n) i =
        Adds-bind _ _ (status_round-StatusCalls i)
          (λ flow. follow_flow-StatusCalls flow _ (status_loop-StatusCalls n (suc i)))

    -- Every status that is written is one that the API server gave for the resource, with the counts
    -- set and the conditions changed; the resource's metadata and specification and the times of the
    -- last failed check and of the last scaling are never written.
    pub update_status_merges : Adds StatusCalls (update_status env cr phase message)
    unfolding update_status
    update_status_merges = status_loop-StatusCalls 3 0

abbrev pub is_status_write : Call → Bool
is_status_write (Call.update_status cr) = true
is_status_write (Call.get_pod k) = false
is_status_write _ = false

abbrev pub status_writes : Log → ℕ
status_writes = count_if is_status_write

module _ (env : Env) (cr : AzureDevOps) (phase : String) (message : Message) where
  -- How an action ends that writes at most `n` statuses and does not fail.
  abbrev Ends : {A : Type 0} → ℕ → Log → Result A × State → Type 0
  Ends n l (ok a, s) = status_writes s.log ≤ status_writes l + n
  Ends n l (err e, s) = ⊥
  Ends n l (panic, s) = ⊥

  write_status-Ends :
      (i : ℕ) (r : Reply AzureDevOps) (s : State)
      → Ends 1 s.log (write_status env cr phase message i r s)
  unfolding write_status after_status_update
  write_status-Ends i (fail e) s = ground arith
  write_status-Ends i (reply latest) s = ground arith

  Ends-shift :
      {A : Type 0} (n : ℕ) (l m : Log) (x : Result A) (s : State)
      → status_writes m ≤ status_writes l + 1
      → Ends n m (x, s)
      → Ends (suc n) l (x, s)
  Ends-shift n l m (ok a) s h k = omega arith
  Ends-shift n l m (err e) s h k = absurd k
  Ends-shift n l m panic s h k = absurd k

  follow-Ends :
      (n : ℕ) (l : Log) (x : Result Flow) (m : Action ⊤) (s : State)
      → Ends 1 l (x, s)
      → Ends n s.log (m s)
      → Ends (suc n) l (resume x (λ flow. follow_flow flow m) raise s)
  follow-Ends n l (err e) m s h k = absurd h
  follow-Ends n l panic m s h k = absurd h
  follow-Ends n l (ok stop) m s h k = omega arith
  follow-Ends n l (ok next) m s h k = Ends-shift n l s.log (m s).0 (m s).1 h k

  status_loop-Ends : (n i : ℕ) (s : State) → Ends n s.log (status_loop env cr phase message n i s)
  unfolding status_loop status_round
  status_loop-Ends zero i s = omega arith
  status_loop-Ends (suc n) i s =
      let key = status_key env cr in
      let s0 = record s { log = Call.get_resource key ∷ s.log } in
      let r = write_status env cr phase message i (env.get_resource s.log key) s0 in
      follow-Ends n s.log r.0 (status_loop env cr phase message n (suc i)) r.1
        (write_status-Ends i (env.get_resource s.log key) s0) (status_loop-Ends n (suc i) r.1)

  read_Ends :
      (n : ℕ) (l : Log) (x : Result ⊤) (s : State)
      → Ends n l (x, s)
      → (x ≡ ok tt) × (status_writes s.log ≤ status_writes l + n)
  read_Ends n l (ok u) s h = (refl, h)
  read_Ends n l (err e) s h = absurd h
  read_Ends n l panic s h = absurd h

  -- An update of the status writes three times at most and returns, whatever the API server answers:
  -- its failures do not reach the reconciliation.
  pub update_status_returns :
      (s : State)
      → ((update_status env cr phase message s).0 ≡ ok tt)
        × (status_writes (update_status env cr phase message s).1.log ≤ status_writes s.log + 3)
  unfolding update_status
  update_status_returns s = read_Ends 3 s.log _ _ (status_loop-Ends 3 0 s)
