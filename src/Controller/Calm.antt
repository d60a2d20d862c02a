-- ===== src/Controller/Calm.antt =====
-- The parts of a reconciliation that end in no error.
use azdo_kube_operator.Base.{Bool, true, false, String, Option, none, some}
use azdo_kube_operator.Kube.{AzureDevOps, Time, Message, Reply, reply, fail, Deployment}
use azdo_kube_operator.World.{Env, Call, Log, Action, in_case, call}
use azdo_kube_operator.World.Footprint.{Adds, adds_rules}
use azdo_kube_operator.Devops.{new_client}
use azdo_kube_operator.Usecase.{stamp_scaling}
use azdo_kube_operator.Controller.{update_status, observed, observe, failure_interval}
use azdo_kube_operator.Controller.Telling.{Calm}
use azdo_kube_operator.Controller.Quiet.{Quiet}
use azdo_kube_operator.Controller.StatusWrites.{update_status_returns}

module _ (env : Env) where
  pub Calm-call : {A : Type 0} (c : Call) (f : Log → A) → Calm (call c f)
  Calm-call c f = record { at = λ s e h. cc }

  pub update_status-Calm :
      (cr : AzureDevOps) (phase : String) (message : Message)
      → Calm (update_status env cr phase message)
  update_status-Calm cr phase message = record {
    at = λ s e h. let (returns, bound) = update_status_returns env cr phase message s in cc;
  }

  pub new_client-Calm : (pat url project : String) → Calm (new_client pat url project)
  unfolding new_client
  new_client-Calm pat url project = record { at = λ s e h. cc }

  stamp_scaling-Calm : (b : Bool) (cr : AzureDevOps) → Calm (stamp_scaling env b cr)
  unfolding stamp_scaling
  stamp_scaling-Calm true cr = record { at = λ s e h. cc }
  stamp_scaling-Calm false cr = record { at = λ s e h. cc }

  in_case-Calm :
      {A B : Type 0} (o : Option A) (m : Action B) (f : A → Action B)
      → Calm m
      → ((a : A) → Calm (f a))
      → Calm (in_case o m f)
  in_case-Calm none m f h k = h
  in_case-Calm (some a) m f h k = k a

  pub observe-Calm : (cr : AzureDevOps) (r : Reply Deployment) → Calm (observe env cr r)
  unfolding observe observed
  observe-Calm cr (fail x) = record { at = λ s e h. cc }
  observe-Calm cr (reply d) =
      in_case-Calm d.spec.replicas _ _ (record { at = λ s e h. cc }) (λ n. stamp_scaling-Calm _ _)

  pub failure_interval-Calm : (o : Option Time) → Calm (failure_interval env o)
  unfolding failure_interval
  failure_interval-Calm none = record { at = λ s e h. cc }
  failure_interval-Calm (some t) = record { at = λ s e h. cc }

  pub new_client-Quiet : (pat url project : String) → Adds Quiet (new_client pat url project)
  unfolding new_client
  new_client-Quiet pat url project = search adds_rules
