-- ===== src/Tests/ControllerTests.antt =====
-- The controller in the surroundings of the fixture.
use mathlib.Core.List.{Memᴰ}
use mathlib.Core.Path.{subst}
use mathlib.Core.List.Memᴰ.{head, tail}
use azdo_kube_operator.Base.{
  ℕ, suc, ◌≡◌, ◌≢◌, refl, ◌⊎◌, inl, inr, ◌≤◌, ◌+◌, pos, none, some, [], ◌∷◌, arith, true, String,
  any, concat, Bool-cases, has_dash,
}
use azdo_kube_operator.Kube.{AzureDevOps, Pod, pod_running, reply, Error, said, named}
use azdo_kube_operator.World.{Env, Call, Log, ok, panic, normal, warning}
use azdo_kube_operator.World.Footprint.{Adds}
use azdo_kube_operator.Kubernetes.{validate_secrets, default_namespace, desired_deployment, key_of}
use azdo_kube_operator.Devops.Effects.{Uses}
use azdo_kube_operator.Controller.{
  Outcome, process, finalize, update_status, get_pat_token, remove_matching, deployment_key,
  pod_name_without_hash,
}
use azdo_kube_operator.Controller.Telling.{events}
use azdo_kube_operator.Controller.Outcomes.{process_tells}
use azdo_kube_operator.Controller.Gentle.{Allowed, process-Allowed}
use azdo_kube_operator.Controller.Removals.{Targets, remove_matching-Targets}
use azdo_kube_operator.Controller.Finalizers.{resource_writes, finalize_never_removes}
use azdo_kube_operator.Controller.StatusWrites.{
  StatusCalls, status_writes, update_status_merges, update_status_returns,
}
use azdo_kube_operator.Controller.Tokens.{Found, held_at, get_pat_token_lem}
use azdo_kube_operator.Controller.Names.{deployment_key_misses, pod_name_without_hash-concat}
use azdo_kube_operator.Controller.Agreement.{validate_secrets-get_pat_token}
use azdo_kube_operator.Tests.Fixture.{
  sample, sample_key, sample_env, sample_client, start, all_agents, resource_in, meta_named, closes,
}

process_tells_example :
    let (r, s') = process sample_env sample_key sample start in
    (r ≡ panic)
    ⊎ ((o : Outcome) × (r ≡ ok o)
        × (((o.error ≡ none)
              × (events normal s'.log ≡ suc (events normal []))
              × (events warning s'.log ≡ events warning []))
            ⊎ ((e : Error) × (o.error ≡ some e)
                × (events normal s'.log ≡ events normal [])
                × (events warning s'.log ≡ suc (events warning [])))))
process_tells_example = process_tells sample_env sample_key sample start

process-Allowed_example : Adds Allowed (process sample_env sample_key sample)
process-Allowed_example = process-Allowed sample_env sample_key sample

remove_matching-Targets_example :
    Adds
      (Uses (Targets sample_client "agents-" (pos 7) all_agents))
      (remove_matching sample_env sample_client "agents-" (pos 7) all_agents)
remove_matching-Targets_example =
    remove_matching-Targets sample_env sample_client "agents-" (pos 7) all_agents

-- No body can be decoded.
abbrev blind : Env
blind = record sample_env { decode_agents = λ l b. none }

closes_self : (b : ℕ) (c : Call) → Call.close_body b ≡ c → closes b c ≡ true
closes_self b c e = subst (λ x. closes b x ≡ true) e (ground arith)

seen : (l : Log) (b : ℕ) → Memᴰ (Call.close_body b) l → any (closes b) l ≡ true
seen [] b m = elim m [ ]
seen (c ∷ l) b (head e) = rw (closes_self b c e)
seen (c ∷ l) b (tail m) = elim (Bool-cases (closes b c)) [
  | inl e ↦ rw e refl
  | inr e ↦ rw e (seen l b m)
]

closed_unreadable :
    (l : Log) (b : ℕ) → Memᴰ (Call.close_body b) l → sample_env.decode_agents l b ≡ none
closed_unreadable l b m = rw (seen l b m)

finalize_never_removes_example :
    resource_writes (finalize sample_env sample_key sample start).1.log ≡ resource_writes []
finalize_never_removes_example =
    finalize_never_removes sample_env closed_unreadable sample sample_key start

update_status_merges_example :
    Adds (StatusCalls sample_env sample) (update_status sample_env sample "Ready" (said "done"))
update_status_merges_example = update_status_merges sample_env sample "Ready" (said "done")

update_status_returns_example :
    ((update_status sample_env sample "Ready" (said "done") start).0 ≡ ok tt)
    × (status_writes (update_status sample_env sample "Ready" (said "done") start).1.log
        ≤ status_writes [] + 3)
update_status_returns_example = update_status_returns sample_env sample "Ready" (said "done") start

get_pat_token_lem_example :
    let r = (get_pat_token sample_env "pat" "builds" start).0 in
    ((t : String) × (held_at sample_env [] "pat" "builds" ≡ some t) × (r ≡ ok t))
    ⊎ ((held_at sample_env [] "pat" "builds" ≡ none)
        × Found sample_env
            (held_at sample_env
              (Call.get_secret (named "pat" "builds") ∷ [])
              "pat"
              default_namespace)
            r)
get_pat_token_lem_example = get_pat_token_lem sample_env "pat" "builds" start

deployment_key_misses_example :
    deployment_key sample ≢ key_of (desired_deployment sample (pos 2)).meta
deployment_key_misses_example = deployment_key_misses sample (pos 2)

pod_name_without_hash-concat_example :
    pod_name_without_hash (concat (concat "agents" (concat "-" "7d4b")) (concat "-" "x2x9z"))
    ≡ "agents"
unfolding has_dash
pod_name_without_hash-concat_example =
    pod_name_without_hash-concat "agents" "7d4b" "x2x9z" (λ e. cc) refl refl

abbrev running : Pod
running = record { meta = meta_named "agents" []; phase = pod_running }

abbrev pod_env : Env
pod_env = record sample_env { get_pod = λ l k. reply running }

abbrev unmarked : AzureDevOps
unmarked = resource_in "Deployment" "dind" []

abbrev unmarked_env : Env
unmarked_env = record sample_env { get_resource = λ l k. reply unmarked }

validate_secrets-get_pat_token_example :
    (t : String) × ((get_pat_token sample_env "pat" "builds" start).0 ≡ ok t)
unfolding validate_secrets
validate_secrets-get_pat_token_example =
    validate_secrets-get_pat_token sample_env (λ l m k. refl) "builds" "pat" "" start start refl
