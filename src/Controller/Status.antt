-- ===== src/Controller/Status.antt =====
-- `updateStatus`: read the resource, write its status, up to three times on a conflict.
use azdo_kube_operator.Base.{
  ℕ, zero, suc, ◌*◌, ⊤, ◌&&◌, String, Option, none, some, pos, ltb, str_eq, if◌then◌else◌,
}
use azdo_kube_operator.Kube.{
  named, Time, ApiError, is_conflict, Reply, reply, fail, Message, Condition, condition_true,
  condition_false, AzureDevOps, AzureDevOpsStatus,
}
use azdo_kube_operator.World.{Env, Action, pure, ◌>>=◌, Call, call}

abbrev pub millisecond : ℕ
millisecond = 1_000_000

unfoldable pub ready_condition : String → Message → Time → Condition
ready_condition phase message now = record {
  type = "Ready";
  status = if str_eq phase "Ready" then condition_true else condition_false;
  reason = phase;
  message = message;
  last_transition_time = now;
}

-- Whether the loop goes on.
pub data Flow : Type 0 where
  stop next : Flow

abbrev pub follow_flow : Flow → Action ⊤ → Action ⊤
follow_flow stop rest = pure tt
follow_flow next rest = rest

module _ (env : Env) where
  -- The four counts and the condition; nothing else of the status is written.
  unfoldable pub merged_status :
      AzureDevOpsStatus → AzureDevOpsStatus → Condition → AzureDevOpsStatus
  merged_status latest wanted condition = record latest {
    current_agents = wanted.current_agents;
    queued_jobs = wanted.queued_jobs;
    desired_agents = wanted.desired_agents;
    ready_agents = wanted.ready_agents;
    conditions = env.set_status_condition latest.conditions condition;
  }

  unfoldable pub after_status_update : ℕ → Option ApiError → Action Flow
  after_status_update i none = pure stop
  after_status_update i (some e) =
      if is_conflict e && ltb i 2
      then call (Call.sleep (pos (suc i * 100 * millisecond))) (λ l. next)
      else pure stop

  module _ (cr : AzureDevOps) (phase : String) (message : Message) where
    unfoldable pub write_status : ℕ → Reply AzureDevOps → Action Flow
    unfolding ready_condition merged_status after_status_update
    write_status i (fail e) = pure stop
    write_status i (reply latest) = do
      now ← call Call.clock env.clock
      let updated = record latest {
        status = merged_status latest.status cr.status (ready_condition phase message now);
      }
      answer ← call (Call.update_status updated) (λ l. env.update_status l updated)
      after_status_update i answer

    unfoldable pub status_round : ℕ → Action Flow
    unfolding write_status
    status_round i = do
      let key = named cr.meta.name cr.meta.namespace
      latest ← call (Call.get_resource key) (λ l. env.get_resource l key)
      write_status i latest

    -- The loop, by the number of rounds left.
    unfoldable pub status_loop : ℕ → ℕ → Action ⊤
    unfolding status_round
    status_loop zero i = pure tt
    status_loop (suc n) i = do flow ← status_round i; follow_flow flow (status_loop n (suc i))

    unfoldable pub update_status : Action ⊤
    unfolding status_loop
    update_status = status_loop 3 0
