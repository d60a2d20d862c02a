-- ===== src/Tests/ClientTests.antt =====
-- The client of Azure DevOps against the server of the fixture.

use azdo_kube_operator.Base.{◌≡◌, ◌≢◌, refl, ◌⊎◌, ◌≤◌, ◌+◌, pos, none, some, [], ◌∷◌, lookup}
use azdo_kube_operator.World.{
  Env, State, Call, Log, Request, Response, response, ok, PoolCacheEntry, http_get, pools_named,
}
use azdo_kube_operator.Devops.{
  request_of, do_request_with_backoff, get_pool_id_by_name, get_queue_length,
}
use azdo_kube_operator.Devops.Retries.{requests, do_request_with_backoff_at_most_three}
use azdo_kube_operator.Devops.Answers.{do_request_with_backoff_answer}
use azdo_kube_operator.Devops.Cache.{get_pool_id_by_name_again}
use azdo_kube_operator.Tests.Fixture.{sample_env, sample_client, start}

-- Two of the three jobs wait.
queue_of_the_pool : (get_queue_length sample_env sample_client "linux" start).0 ≡ ok 2
unfolding get_queue_length
queue_of_the_pool = refl

-- A server that refuses every request for now.
abbrev busy : Response
busy = record { status = 429; retry_after = "2"; body = 9 }

abbrev busy_env : Env
busy_env = record sample_env { http = λ l r. response busy }

abbrev a_request : Request
unfolding request_of
a_request = request_of sample_client http_get (pools_named "linux") none

do_request_with_backoff_answer_example :
    ((l : Log) × (busy_env.http l a_request ≡ response busy))
    × ((busy.status ≢ 429)
        ⊎ (requests (do_request_with_backoff busy_env a_request start).1.log
            ≡ requests start.log + 3))
unfolding do_request_with_backoff
do_request_with_backoff_answer_example =
    do_request_with_backoff_answer busy_env a_request start busy refl

do_request_with_backoff_at_most_three_example :
    requests (do_request_with_backoff busy_env a_request start).1.log ≤ requests start.log + 3
do_request_with_backoff_at_most_three_example =
    do_request_with_backoff_at_most_three busy_env a_request start

abbrev entry : PoolCacheEntry
entry = record { id = pos 7; expires_at = 5_000 }

abbrev remembering : State
remembering = record { log = []; pool_id_cache = ("linux", entry) ∷ [] }

get_pool_id_by_name_again_example :
    let s' = (get_pool_id_by_name sample_env sample_client "linux" start).1 in
    (found : PoolCacheEntry) × (lookup "linux" s'.pool_id_cache ≡ some found)
    × ((found.expires_at ≤ sample_env.clock s'.log)
        ⊎ (get_pool_id_by_name sample_env sample_client "linux" s'
            ≡ (ok (pos 7), record s' { log = Call.clock ∷ s'.log })))
unfolding get_pool_id_by_name
get_pool_id_by_name_again_example =
    get_pool_id_by_name_again sample_env sample_client "linux" start (pos 7) refl
