-- ===== src/Devops/Answers.antt =====
-- What comes back of a request.
use azdo_kube_operator.Base.{
  ◌∷◌, ◌≢◌, ℕ, zero, suc, ◌+◌, Bool-cases, String, Option, none, some, ◌≡◌, refl, ◌⊎◌, inl, inr,
  ◌==◌, arith,
}
use azdo_kube_operator.Kube.{Error}
use azdo_kube_operator.World.{
  in_case, Env, State, Log, Call, Request, Response, Result, ok, err, panic, resume, raise,
  HttpReply, Action, response, transport_failure,
}
use azdo_kube_operator.Devops.{
  jittered, retry_delay, pause, rate_limited, after_reply, try_once, Round, again, done, follow,
  Last, got, failed, nothing_yet, conclude, send, do_request_with_backoff, close,
}
use azdo_kube_operator.Devops.Retries.{requests, try_once-requests}

module _ (env : Env) where
  -- A round is done only with an answer that is not a 429.
  after_reply-done :
      (n : ℕ) (h : HttpReply) (s : State) {resp : Response}
      → (after_reply env n h s).0 ≡ ok (done resp)
      → (resp.status ≢ 429) × (h ≡ response resp)
  unfolding after_reply rate_limited retry_delay jittered pause close
  after_reply-done n (transport_failure e) s h = ground arith
  after_reply-done n (response r) s h = ground arith

  -- What a round that goes on has kept: the answer of the server, or a failure.
  after_reply-again :
      (n : ℕ) (h : HttpReply) (s : State) {resp : Response}
      → (after_reply env n h s).0 ≡ ok (again (got resp))
      → h ≡ response resp
  unfolding after_reply rate_limited retry_delay jittered pause close
  after_reply-again n (transport_failure e) s h = ground arith
  after_reply-again n (response r) s h = ground arith

  -- The last answer is one that the server gave.
  abbrev Kept : Request → Last → Type 0
  Kept r nothing_yet = Unit
  Kept r (got resp) = (l : Log) × (env.http l r ≡ response resp)
  Kept r (failed e) = Unit

  -- How the loop may end at `s'`, `n` rounds before its last: with an answer, which is a 429 only
  -- after all the rounds.
  abbrev Ends : Request → ℕ → Log → Result Response × State → Type 0
  Ends r n l (ok resp, s') =
      ((l' : Log) × (env.http l' r ≡ response resp))
      × (resp.status ≡ 429 → requests s'.log ≡ requests l + n)
  Ends r n l (err e, s') = Unit
  Ends r n l (panic, s') = Unit

  try_once-Kept :
      (n : ℕ) (r : Request) (s : State) (l : Last)
      → (try_once env n r s).0 ≡ ok (again l)
      → Kept r l
  unfolding try_once
  try_once-Kept n r s nothing_yet h = tt
  try_once-Kept n r s (failed e) h = tt
  try_once-Kept n r s (got resp) h = (s.log, after_reply-again n (env.http s.log r) _ h)

  follow-Ends :
      (r : Request) (n k : ℕ) (x : Result Round) (f : Last → Action Response) (l : Log) (s : State)
      → ((last : Last) → x ≡ ok (again last) → Ends r n l (f last s))
      → ((resp : Response) → x ≡ ok (done resp) → Ends r n l (ok resp, s))
      → Ends r n l (resume x (λ round. follow round f) raise s)
  follow-Ends r n k (ok (again last)) f l s ha hd = ha last refl
  follow-Ends r n k (ok (done resp)) f l s ha hd = hd resp refl
  follow-Ends r n k (err e) f l s ha hd = tt
  follow-Ends r n k panic f l s ha hd = tt

  try_once-Ends :
      (n k : ℕ) (r : Request) (s : State) (resp : Response)
      → (try_once env n r s).0 ≡ ok (done resp)
      → Ends r k s.log (ok resp, (try_once env n r s).1)
  unfolding try_once
  try_once-Ends n k r s resp h =
      let (not_limited, e) = after_reply-done n (env.http s.log r) _ h in
      ((s.log, e), λ limited. absurd (not_limited limited))

  -- From a log with one request more.
  Ends-shift :
      (r : Request) (n : ℕ) (l m : Log) (x : Result Response) (s : State)
      → requests m ≡ suc (requests l)
      → Ends r n m (x, s)
      → Ends r (suc n) l (x, s)
  Ends-shift r n l m (ok resp) s e (a, h) = (a, λ limited. omega (arith, h limited))
  Ends-shift r n l m (err x) s e h = tt
  Ends-shift r n l m panic s e h = tt

  send-Ends :
      (n attempt : ℕ) (r : Request) (l : Last) (s : State)
      → Kept r l
      → Ends r n s.log (send env n attempt r l s)
  unfolding send conclude
  send-Ends zero attempt r nothing_yet s k = tt
  send-Ends zero attempt r (got resp) s k = (k, λ limited. omega arith)
  send-Ends zero attempt r (failed e) s k = tt
  send-Ends (suc n) attempt r l s k =
      let s' = (try_once env attempt r s).1 in
      follow-Ends r (suc n) n (try_once env attempt r s).0 (send env n (suc attempt) r) s.log s'
        (λ last e.
          Ends-shift r n s.log s'.log (send env n (suc attempt) r last s').0
            (send env n (suc attempt) r last s').1 (try_once-requests env attempt r s)
            (send-Ends n (suc attempt) r last s' (try_once-Kept attempt r s last e)))
        (try_once-Ends attempt (suc n) r s)

  in_case-Ends :
      (r : Request) (o : Option String) (m : Action Response) (e : String → Error) (s : State)
      (l : Log)
      → requests s.log ≡ requests l
      → Ends r 3 s.log (m s)
      → Ends r 3 l (in_case o m (λ x. raise (e x)) s)
  in_case-Ends r none m e s l h k = Ends-same (m s).0 (m s).1 k
    where
      Ends-same : (x : Result Response) (s' : State) → Ends r 3 s.log (x, s') → Ends r 3 l (x, s')
      Ends-same (ok resp) s' (a, b) = (a, λ limited. omega (arith, b limited))
      Ends-same (err x) s' q = tt
      Ends-same panic s' q = tt
  in_case-Ends r (some x) m e s l h k = tt

  -- A response that the client hands back was given by the server to this very request, and its
  -- status is another than 429 or the request was sent three times.
  pub do_request_with_backoff_answer :
      (r : Request) (s : State) (resp : Response)
      → (do_request_with_backoff env r s).0 ≡ ok resp
      → ((l : Log) × (env.http l r ≡ response resp))
        × ((resp.status ≢ 429)
            ⊎ (requests (do_request_with_backoff env r s).1.log ≡ requests s.log + 3))
  unfolding do_request_with_backoff
  do_request_with_backoff_answer r s resp h = read_Ends _ _ h (
      in_case-Ends r (env.limiter s.log) (send env 3 0 r nothing_yet) _
        (record s { log = Call.limiter ∷ s.log }) s.log refl (send-Ends 3 0 r nothing_yet _ tt))
    where
      read_Ends :
          (x : Result Response) (s' : State)
          → x ≡ ok resp
          → Ends r 3 s.log (x, s')
          → ((l : Log) × (env.http l r ≡ response resp))
            × ((resp.status ≢ 429) ⊎ (requests s'.log ≡ requests s.log + 3))
      read_Ends x s' e k =
          let (given, limited) : Ends r 3 s.log (ok resp, s') = rw e at k in
          (
            given,
            elim (Bool-cases (resp.status == 429)) [
              | inl f ↦ inr (limited (ground arith))
              | inr f ↦ inl (λ g. ground arith)
            ],
          )
