-- ===== src/Devops/Guards.antt =====
-- The client's address, its guards, and the count of the jobs.
use azdo_kube_operator.Base.{
  ◌≡◌, ◌≢◌, refl, ◌⊎◌, inl, inr, Bool, true, false, Bool-cases, ◌||◌, String, List, [], ◌∷◌, ℤ, pos,
  ◌≤ℤ◌, leb_ℤ, eqb_ℤ, count_if, is_empty, arith, ends_with_slash, ends_with_slash-trim_right_slash,
  eq_of_parts, if◌then◌else◌,
}
use azdo_kube_operator.Kube.{Error}
use azdo_kube_operator.World.{Env, State, ok, err, JobRequests, QueueItem}
use azdo_kube_operator.Devops.{
  AzureDevOpsClient, client_of, new_client, disable_agent, check_ids, is_unassigned, pending_jobs,
}

-- The address of a new client ends in no slash, and its cache is empty.
pub new_client_starts :
    (pat url project : String) (s : State)
    → (ends_with_slash (client_of pat url project).org_url ≡ false)
      × (new_client pat url project s
          ≡ (ok (client_of pat url project), record s { pool_id_cache = [] }))
unfolding client_of new_client
new_client_starts pat url project s = (ends_with_slash-trim_right_slash url, refl)

-- Disabling an agent is refused before anything is asked where the identifier of the agent or of
-- the pool is not positive.
pub disable_agent_refuses :
    (env : Env) (client : AzureDevOpsClient) (pool agent : ℤ) (s : State)
    → ((agent ≤ℤ pos 0) ⊎ (pool ≤ℤ pos 0))
    → (e : Error) × (disable_agent env client pool agent s ≡ (err e, s))
unfolding disable_agent check_ids
disable_agent_refuses env client pool agent s h = elim (Bool-cases (leb_ℤ agent (pos 0))) [
  | inl e ↦ rw e (_, refl)
  | inr e ↦ elim (Bool-cases (leb_ℤ pool (pos 0))) [
    | inl f ↦ rw (e, f) (_, refl)
    | inr f ↦ ground arith
  ]
]

counted :
    (b : Bool) (items : List QueueItem)
    → b ≡ false
    → (if b || is_empty items then 0 else count_if is_unassigned items)
      ≡ count_if is_unassigned items
counted false [] e = refl
counted false (x ∷ xs) e = refl
counted true items e = cc

-- Unless the answer counts no job, the pending jobs are those of its list that have no time of
-- assignment, also where the list is empty.
pub pending_jobs_unassigned :
    (answer : JobRequests)
    → answer.count ≢ pos 0
    → pending_jobs answer ≡ count_if is_unassigned answer.value
unfolding pending_jobs
pending_jobs_unassigned answer h =
    counted (eqb_ℤ answer.count (pos 0)) answer.value
      (elim (Bool-cases (eqb_ℤ answer.count (pos 0))) [
        | inl e ↦ absurd (h (eq_of_parts answer.count (pos 0) (ground arith)))
        | inr e ↦ e
      ])
