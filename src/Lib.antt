-- ===== src/Lib.antt =====
-- A verification library for azdo-kube-operator, a Kubernetes operator that runs Azure DevOps
-- agents for the resources of the kind AzureDevOps.
--
-- The program. The controller is called with a name. Where a pod has it, agents of a pod that is
-- ending are removed; where a resource has it, the resource gets a finalizer, is cleaned up when it
-- is deleted, and is else brought up to date: the token is looked up, the queue of the pool is
-- asked for its length, the use case chooses a number of agents and has the Kubernetes client make
-- or update a Deployment or a Job, and the status and an event tell how it went.
--
-- Base    shared helpers: tests, lists, Go's integers, strings and maps.
-- Kube    the Kubernetes values that the code reads and writes, api/v1beta1/azuredevops_types.go
--         (Resource) and api/v0beta0/azuredevops_types.go (Beta0).
-- World   what is not the operator's code. Env holds, as functions of the calls made before, the
--         answers of the API server, of the HTTP transport and the decoders, of controller-runtime,
--         the clock, the random numbers, the rate limiter and the context. An action takes a state,
--         the log of calls and the client's cache, to a value, an error or a panic and the next
--         state. Footprint says what an action may add to the log, Caches that it keeps the cache,
--         Survival that it does not panic, Returns that it ends in a value, Views that it leaves a
--         part of what the log tells.
-- Devops  internal/infra/azuredevops/queue.go and types.go. Client: NewAzureDevOpsClient and the
--         making of requests; Backoff: doRequestWithBackoff; Queue: GetPoolIDByName and
--         GetQueueLength; Agents: GetAgentsInPool, DisableAgent, DeleteAgent; QueueId:
--         GetQueueIdFromName; Unused: types that nothing uses. Available describes a server that
--         answers.
-- Kubernetes  internal/infra/kubernetes. Secrets: ValidateSecrets (secrets.go); Template and
--         Reconcile: ReconcileDeployment (reconcile.go); Deployments: reconcileDeploymentInternal
--         (reconcile_deployment.go); Jobs: ReconcileJob (reconcile_job.go); Domain:
--         internal/domain/models/azure_devops.go. Stores, Cluster and JobStore describe the API
--         server that Refinement and JobRefinement are about: what it holds is the history
--         replayed. It keeps what is sent as it is, without the defaults that a real one adds,
--         refuses no write of a Deployment, and refuses a changed template of a Job. Sent describes
--         the calls that Targets is about.
-- Usecase internal/app/usecase/reconcile.go. Scaling: determineDesiredReplicas and
--         calculateRequeueInterval; Handle: Handle.
-- Controller  internal/interfaces/controller/azuredevops_controller.go. Token: getPATToken; Status:
--         updateStatus; Interval: calculateRequeueInterval; Cleanup: deleteExternalAzDOResources;
--         PodEvent: handlePodEvent; Reconcile: Reconcile; Setup: SetupWithManager. Life is the
--         abstract life of a resource, the steps that one reconciliation may make; Histories puts
--         reconciliations and the changes of users in any order; Fleet follows reconciliations of
--         several resources, and Progress one in surroundings that work.
-- Cmd     cmd/main.go. Options: the flags and what they make of the servers' options; Main: main, as
--         the calls that may fail. Plan is the list of calls that it is compared with.
-- Tests   surroundings that answer, and the theorems applied to them.
-- The other modules of a part hold its proofs and are named for what they prove.
--
-- Conventions. The three loops with a bound in the source (three attempts of a request, three
-- rounds of a Deployment, three of a status) recurse on the number of rounds left, which is that
-- bound, so nothing can run out. Loops over lists recurse on the list. A value of int32 is an
-- integer; the conversions int32(n) and the 64-bit durations wrap as in Go. A length of a queue is
-- a count, hence a natural number. Times are nanoseconds. A formatted text is kept as its format
-- and its arguments. A request is kept as its method, its endpoint with its arguments, the text
-- that the authorization encodes, and its payload.
--
-- Not modelled: logging; the mutex of the cache, as one client serves one reconciliation; the
-- encodings of URLs, base64 and JSON; the parsing of the command line; pkg/utils/resources.go, one
-- call of DeepEqual that nothing uses; the registration of the types with the scheme; the generated
-- deep copies, which are the value itself; the end-to-end tests, which run a cluster.
pub mod Base
pub mod Kube
pub mod World
pub mod Devops
pub mod Kubernetes
pub mod Usecase
pub mod Controller
pub mod Cmd
pub mod Tests
