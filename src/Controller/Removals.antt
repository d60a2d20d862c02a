-- ===== src/Controller/Removals.antt =====
-- Which agents a cleanup removes: those of the list whose name has the prefix, and no other.
use mathlib.Core.List.{Memᴰ}
use mathlib.Core.List.Memᴰ
use azdo_kube_operator.Base.{
  ◌≡◌, refl, ap, sym, ◌∙◌, inl, inr, ⊤, Bool, true, false, String, List, [], ◌∷◌, ℤ, has_prefix,
}
use azdo_kube_operator.World.{Env, State, Call, Request, Agent, Action, ok, when}
use azdo_kube_operator.World.Footprint.{
  Adds, Adds-pure, Adds-bind, Adds-when, Adds-branch, Adds-raise, Adds-weaken,
}
use azdo_kube_operator.World.Inversion.{bind-eq-ok}
use azdo_kube_operator.Devops.{AzureDevOpsClient, delete_agent, disable_agent}
use azdo_kube_operator.Devops.Effects.{Uses, asks, closes, reads, clocks, draws, limits, waits}
use azdo_kube_operator.Devops.Requests.{Removes, disable_agent-Removes, delete_agent-Removes}
use azdo_kube_operator.Devops.Deletions.{Confirmed, delete_agent_confirmed}
use azdo_kube_operator.Controller.{remove_agent, remove_matching, retire_agent, retire_matching}

-- The requests about the agents of a list whose name has the prefix.
pub data Targets (client : AzureDevOpsClient) (prefix : String) (pool : ℤ)
    : List Agent → Request → Type 0 where
  this :
      {agent : Agent} {rest : List Agent} {r : Request}
      → has_prefix agent.name prefix ≡ true
      → Removes client pool agent.id r
      → Targets client prefix pool (agent ∷ rest) r
  later :
      {agent : Agent} {rest : List Agent} {r : Request}
      → Targets client prefix pool rest r
      → Targets client prefix pool (agent ∷ rest) r

Uses-weaken :
    {P Q : Request → Type 0} → ((r : Request) → P r → Q r) → (c : Call) → Uses P c → Uses Q c
Uses-weaken w _ (asks q) = asks (w _ q)
Uses-weaken w _ closes = closes
Uses-weaken w _ reads = reads
Uses-weaken w _ clocks = clocks
Uses-weaken w _ draws = draws
Uses-weaken w _ limits = limits
Uses-weaken w _ waits = waits

-- A step that is taken only where the test passes may use that it passes.
Adds-when-true :
    {P : Call → Type 0} (b : Bool) (m : Action ⊤) → (b ≡ true → Adds P m) → Adds P (when b m)
Adds-when-true true m k = k refl
Adds-when-true false m k = record { at = λ s. (Adds-pure tt).at s }

module _ (env : Env) (client : AzureDevOpsClient) where
  remove_agent-Removes :
      (pool : ℤ) (agent : Agent)
      → Adds (Uses (Removes client pool agent.id)) (remove_agent env client pool agent)
  unfolding remove_agent
  remove_agent-Removes pool agent =
      Adds-bind _ _ (Adds-when _ _ (disable_agent-Removes env client pool agent.id))
        λ u. delete_agent-Removes env client pool agent.id

  retire_agent-Removes :
      (pool : ℤ) (agent : Agent)
      → Adds (Uses (Removes client pool agent.id)) (retire_agent env client pool agent)
  unfolding retire_agent
  retire_agent-Removes pool agent =
      Adds-bind _ _
        (Adds-when _ _ (
          Adds-branch _ _ _ (disable_agent-Removes env client pool agent.id) Adds-pure
            (λ e. Adds-raise _)))
        (λ u.
          Adds-branch _ _ _ (delete_agent-Removes env client pool agent.id) Adds-pure
            (λ e. Adds-raise _))

  -- A cleanup asks the server only to disable or delete agents of the list whose name has the prefix.
  pub remove_matching-Targets :
      (prefix : String) (pool : ℤ) (agents : List Agent)
      → Adds
          (Uses (Targets client prefix pool agents))
          (remove_matching env client prefix pool agents)
  unfolding remove_matching
  remove_matching-Targets prefix pool [] = Adds-pure tt
  remove_matching-Targets prefix pool (agent ∷ rest) =
      Adds-bind _ _
        (Adds-when-true _ _
          λ e. Adds-weaken (Uses-weaken (λ r. this e)) _ (remove_agent-Removes pool agent))
        (λ u. Adds-weaken (Uses-weaken (λ r. later)) _ (remove_matching-Targets prefix pool rest))

  -- The handler of a pod's end asks only to disable or delete agents of the list whose name has the
  -- prefix.
  pub retire_matching-Targets :
      (prefix : String) (pool : ℤ) (agents : List Agent)
      → Adds
          (Uses (Targets client prefix pool agents))
          (retire_matching env client prefix pool agents)
  unfolding retire_matching
  retire_matching-Targets prefix pool [] = Adds-pure tt
  retire_matching-Targets prefix pool (agent ∷ rest) =
      Adds-bind _ _
        (Adds-when-true _ _
          λ e. Adds-weaken (Uses-weaken (λ r. this e)) _ (retire_agent-Removes pool agent))
        (λ u. Adds-weaken (Uses-weaken (λ r. later)) _ (retire_matching-Targets prefix pool rest))

  remove_agent-Confirmed :
      (pool : ℤ) (agent : Agent) (s : State)
      → (remove_agent env client pool agent s).0 ≡ ok tt
      → Confirmed env client pool agent.id
  unfolding remove_agent
  remove_agent-Confirmed pool agent s h =
      let first = when agent.enabled (disable_agent env client pool agent.id) in
      let (u, done, e) = bind-eq-ok first (λ u. delete_agent env client pool agent.id) s h in
      delete_agent_confirmed env client pool agent.id (first s).1 (ap (λ x. x.0) (sym e) ∙ h)

  step-Confirmed :
      (prefix : String) (pool : ℤ) (first agent : Agent) (s : State) {u : ⊤}
      → agent ≡ first
      → has_prefix agent.name prefix ≡ true
      → (when (has_prefix first.name prefix) (remove_agent env client pool first) s).0 ≡ ok u
      → Confirmed env client pool agent.id
  step-Confirmed prefix pool first agent s same fits done =
      remove_agent-Confirmed pool agent s (rw (sym same, fits) at done)

  -- A cleanup that succeeds has had the deletion of every agent of the list whose name has the prefix
  -- confirmed by the server.
  pub remove_matching_complete :
      (prefix : String) (pool : ℤ) (agents : List Agent) (agent : Agent) (s : State)
      → Memᴰ agent agents
      → has_prefix agent.name prefix ≡ true
      → (remove_matching env client prefix pool agents s).0 ≡ ok tt
      → Confirmed env client pool agent.id
  unfolding remove_matching remove_agent
  remove_matching_complete prefix pool [] agent s listed fits h = elim listed [ ]
  remove_matching_complete prefix pool (first ∷ rest) agent s listed fits h =
      let step = when (has_prefix first.name prefix) (remove_agent env client pool first) in
      let others = remove_matching env client prefix pool rest in
      let (u, done, e) = bind-eq-ok step (λ u. others) s h in
      elim (Memᴰ.cases_cons listed) [
        | inl same ↦ step-Confirmed prefix pool first agent s same fits done
        | inr more ↦
            remove_matching_complete prefix pool rest agent (step s).1 more fits
              (ap (λ x. x.0) (sym e) ∙ h)
      ]
