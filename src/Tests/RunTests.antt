-- ===== src/Tests/RunTests.antt =====
-- Runs of the client, the use case and the controller.
use azdo_kube_operator.Base.{trim_space, lookup, ◌≡◌, refl, ◌+◌, ◌*◌, ◌≤◌, ℤ, count_if, has_prefix}
use azdo_kube_operator.World.{Agent, JobRequests, ok}
use azdo_kube_operator.Devops.{client_of, get_pool_id_by_name, get_queue_id_from_name}
use azdo_kube_operator.Devops.Lookups.{request, Alike, lookups_agree}
use azdo_kube_operator.Devops.Retries.{requests}
use azdo_kube_operator.Devops.Pending.{Lists, get_queue_length_counts}
use mathlib.Core.List.{Permᴰ}
use azdo_kube_operator.Base.{ℕ, List, length, [], ◌∷◌, some, none}
use azdo_kube_operator.World.{Log, Call, QueueItem}
use azdo_kube_operator.Devops.{get_queue_length}
use azdo_kube_operator.Tests.Fixture.{two_pending, item_assigned}
use azdo_kube_operator.Controller.{Outcome, reconcile, remove_matching}
use azdo_kube_operator.Controller.Returns.{reconcile_returns}
use azdo_kube_operator.Controller.Costs.{remove_matching_cost}
use azdo_kube_operator.Tests.Fixture.{sample_env, sample_key, sample_client, start, all_agents}

lookups_agree_example :
    Alike
      (get_queue_id_from_name sample_env "https://dev.azure.com/org/" "project" "token" "linux"
        start).0
      (get_pool_id_by_name sample_env
        (client_of "token" "https://dev.azure.com/org/" "project")
        "linux"
        start).0
unfolding trim_space lookup request
lookups_agree_example =
    lookups_agree sample_env "https://dev.azure.com/org/" "project" "token" "linux" start
      (record { status = 200; retry_after = ""; body = 1 }) "body" refl refl refl refl refl refl
      refl refl

reconcile_returns_example : (o : Outcome) × ((reconcile sample_env sample_key start).0 ≡ ok o)
reconcile_returns_example = reconcile_returns sample_env (λ l k d e. cc) sample_key start

remove_matching_cost_example :
    requests (remove_matching sample_env sample_client "agents-" (ℤ.pos 7) all_agents start).1.log
    ≤ requests start.log + 4 * count_if (λ (a : Agent). has_prefix a.name "agents-") all_agents
remove_matching_cost_example =
    remove_matching_cost sample_env sample_client "agents-" (ℤ.pos 7) all_agents start

get_queue_length_counts_example :
    (l : Log) × (b : ℕ) × ((get_queue_length sample_env sample_client "linux" start).1.log
      ≡ Call.close_body b ∷ Call.read_body b ∷ l)
    × (answer : JobRequests) × (sample_env.decode_jobs l b ≡ some answer)
    × ((waiting taken : List QueueItem) → Lists answer waiting taken → 2 ≡ length waiting)
unfolding get_queue_length
get_queue_length_counts_example =
    get_queue_length_counts sample_env sample_client "linux" start 2 refl

-- The jobs of the sample's queue.
two_pending-Lists :
    Lists two_pending (item_assigned none ∷ item_assigned none ∷ []) (item_assigned (some 5) ∷ [])
two_pending-Lists = record {
  counts = λ e. cc;
  wait = (refl, (refl, tt));
  take = ((λ e. cc), tt);
  mixed = Permᴰ.cons refl (Permᴰ.swap refl refl);
}
