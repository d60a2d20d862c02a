-- ===== src/Devops/Pending.antt =====
-- What the length of the queue counts.
use mathlib.Core.List.{Permᴰ}
use azdo_kube_operator.Base.{
  ◌≡◌, ◌≢◌, refl, sym, ◌∙◌, ap, ℕ, arith, Bool, true, false, Bool-cases, Option, none, some,
  Option-cases, String, List, [], ◌∷◌, ◌++◌, pos, count_if, count_if-append, length, All, inl, inr,
  ◌==◌,
}
use azdo_kube_operator.World.{
  Env, State, Log, Call, Result, ok, Response, JobRequests, QueueItem, wrapped, http_get,
  job_requests,
}
use azdo_kube_operator.World.Inversion.{bind-eq-ok}
use azdo_kube_operator.Devops.{
  AzureDevOpsClient, get_queue_length, get_pool_id_by_name, count_jobs, bad_status, read_all,
  pending_jobs, is_unassigned, new_request, do_request_with_backoff, close,
}
use azdo_kube_operator.Devops.Guards.{pending_jobs_unassigned}

count_if-Permᴰ :
    (p : QueueItem → Bool) {xs ys : List QueueItem} → Permᴰ xs ys → count_if p xs ≡ count_if p ys
count_if-Permᴰ p Permᴰ.nil = refl
count_if-Permᴰ p (Permᴰ.cons e h) = rw (e, count_if-Permᴰ p h) refl
count_if-Permᴰ p (Permᴰ.swap {a = a} {b = b} {a' = c} {b' = d} {l = l} e f) =
    rw (e, f) (ground arith)
count_if-Permᴰ p (Permᴰ.trans h k) = count_if-Permᴰ p h ∙ count_if-Permᴰ p k

-- No agent was assigned to the job yet, and one was.
abbrev pub IsWaiting : QueueItem → Type 0
IsWaiting item = item.assign_time ≡ none

abbrev pub IsTaken : QueueItem → Type 0
IsTaken item = item.assign_time ≢ none

count_waiting : (xs : List QueueItem) → All IsWaiting xs → count_if is_unassigned xs ≡ length xs
count_waiting [] h = refl
count_waiting (x ∷ xs) (now, later) = rw (now, count_waiting xs later) refl

taken_counts : (o : Option ℕ) → o ≢ none → (elim o [ none ↦ true | some t ↦ false ]) ≡ false
taken_counts none h = absurd (h refl)
taken_counts (some t) h = refl

count_taken : (xs : List QueueItem) → All IsTaken xs → count_if is_unassigned xs ≡ 0
count_taken [] h = refl
count_taken (x ∷ xs) (now, later) = rw (taken_counts x.assign_time now, count_taken xs later) refl

-- The answer counts some job, and lists jobs that wait and jobs that were taken, in any order.
pub record Lists (answer : JobRequests) (waiting taken : List QueueItem) : Type 0 where
  pub counts : answer.count ≢ pos 0
  pub wait : All IsWaiting waiting
  pub take : All IsTaken taken
  pub mixed : Permᴰ answer.value (waiting ++ taken)

pending_jobs-Lists :
    (answer : JobRequests) (waiting taken : List QueueItem)
    → Lists answer waiting taken
    → pending_jobs answer ≡ length waiting
pending_jobs-Lists answer waiting taken h =
    let a = count_waiting waiting h.wait in
    let b = count_taken taken h.take in
    let c = count_if-append is_unassigned waiting taken in
    pending_jobs_unassigned answer h.counts ∙ count_if-Permᴰ is_unassigned h.mixed ∙ omega arith

ok_same : {A : Type 0} {a b : A} → Result.ok a ≡ ok b → a ≡ b
ok_same h = cc

module _ (env : Env) where
  -- A count of a response is that of an answer that its body was decoded to.
  count_jobs-eq-ok :
      (resp : Response) (s : State) {q : ℕ}
      → (count_jobs env resp s).0 ≡ ok q
      → (answer : JobRequests) × (env.decode_jobs s.log resp.body ≡ some answer)
        × (q ≡ pending_jobs answer)
        × ((count_jobs env resp s).1.log ≡ Call.read_body resp.body ∷ s.log)
  unfolding count_jobs bad_status read_all
  count_jobs-eq-ok resp s h = elim (Bool-cases (resp.status == 200)) [
    | inl fine ↦ elim (Option-cases (env.decode_jobs s.log resp.body)) [
      | inl e ↦ let h' = rw (fine, e) at h in cc
      | inr (answer, e) ↦ (answer, e, sym (ok_same (rw (fine, e) at h)), rw (fine, e) refl)
    ]
    | inr bad ↦ let h' = rw bad at h in cc
  ]

  -- A length of the queue counts the answer to which the last body that the client read was decoded:
  -- where this answer counts some job, the length is the number of its jobs that have no time of assignment, in whatever order it
  -- lists them among those that have one.
  pub get_queue_length_counts :
      (client : AzureDevOpsClient) (name : String) (s : State) (q : ℕ)
      → (get_queue_length env client name s).0 ≡ ok q
      → (l : Log) × (b : ℕ) × ((get_queue_length env client name s).1.log
          ≡ Call.close_body b ∷ Call.read_body b ∷ l)
        × (answer : JobRequests) × (env.decode_jobs l b ≡ some answer)
        × ((waiting taken : List QueueItem) → Lists answer waiting taken → q ≡ length waiting)
  unfolding get_queue_length close
  get_queue_length_counts client name s q h =
      let look = wrapped "failed to get pool ID" (get_pool_id_by_name env client name) in
      let (id, found, e) = bind-eq-ok look _ s h in
      let h1 = ap (λ x. x.0) (sym e) ∙ h in
      let (r, made, f) =
        bind-eq-ok (new_request env client http_get (job_requests id) none) _ _ h1 in
      let h2 = ap (λ x. x.0) (sym f) ∙ h1 in
      let asked = wrapped "failed to execute request" (do_request_with_backoff env r) in
      let (resp, got, g) = bind-eq-ok asked _ _ h2 in
      let (answer, decoded, counted, log) = count_jobs-eq-ok resp _ (ap (λ x. x.0) (sym g) ∙ h2) in
      (
        _,
        resp.body,
        ap (λ x. x.1.log) (e ∙ f ∙ g) ∙ ap (λ l. Call.close_body resp.body ∷ l) log,
        answer,
        decoded,
        λ waiting taken h. counted ∙ pending_jobs-Lists answer waiting taken h,
      )
