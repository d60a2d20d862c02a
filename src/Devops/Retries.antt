-- ===== src/Devops/Retries.antt =====
-- How often a request is sent.
use azdo_kube_operator.Base.{
  ◌∷◌, ℕ, zero, suc, ◌+◌, ◌≤◌, Bool, true, false, String, Option, none, some, ◌≡◌, refl, count_if,
  arith,
}
use azdo_kube_operator.Kube.{Error}
use azdo_kube_operator.World.{
  in_case, Env, State, Log, Call, Request, Response, Result, ok, err, panic, resume, raise,
  HttpReply, Action,
}
use azdo_kube_operator.World.Footprint.{Adds-weaken, count_if-Extends}
use azdo_kube_operator.Devops.Effects.{
  Uses, asks, closes, reads, clocks, draws, limits, waits, after_reply-Uses,
}
use azdo_kube_operator.Devops.{
  after_reply, try_once, Round, again, done, follow, Last, got, failed, nothing_yet, conclude, send,
  do_request_with_backoff,
}

abbrev pub is_http : Call → Bool
is_http (Call.http r) = true
is_http (Call.get_pod k) = false
is_http _ = false

abbrev pub requests : Log → ℕ
requests = count_if is_http

no_request : (c : Call) → Uses (λ r. ⊥) c → is_http c ≡ false
no_request _ (asks q) = absurd q
no_request _ closes = refl
no_request _ reads = refl
no_request _ clocks = refl
no_request _ draws = refl
no_request _ limits = refl
no_request _ waits = refl

module _ (env : Env) where
  after_reply-requests :
      (n : ℕ) (h : HttpReply) (s : State) → requests (after_reply env n h s).1.log ≡ requests s.log
  after_reply-requests n h s =
      count_if-Extends is_http
        ((Adds-weaken no_request (after_reply env n h) (after_reply-Uses env (λ r. ⊥) n h)).at s)

  -- One round sends the request once.
  pub try_once-requests :
      (n : ℕ) (r : Request) (s : State) → requests (try_once env n r s).1.log ≡ suc (requests s.log)
  unfolding try_once
  try_once-requests n r s =
      after_reply-requests n (env.http s.log r) (record s { log = Call.http r ∷ s.log })

  follow_le :
      (x : Result Round) (f : Last → Action Response) (n : ℕ) (s : State)
      → ((l : Last) → requests (f l s).1.log ≤ requests s.log + n)
      → requests (resume x (λ round. follow round f) raise s).1.log ≤ requests s.log + n
  follow_le (ok (again l)) f n s h = h l
  follow_le (ok (done r)) f n s h = omega arith
  follow_le (err e) f n s h = omega arith
  follow_le panic f n s h = omega arith

  conclude_log : (l : Last) (s : State) → (conclude env l s).1 ≡ s
  unfolding conclude
  conclude_log nothing_yet s = refl
  conclude_log (got r) s = refl
  conclude_log (failed e) s = refl

  send_le :
      (n attempt : ℕ) (r : Request) (l : Last) (s : State)
      → requests (send env n attempt r l s).1.log ≤ requests s.log + n
  unfolding send
  send_le zero attempt r l s = rw (conclude_log l s) (omega arith)
  send_le (suc n) attempt r l s = omega (
    arith,
    try_once-requests attempt r s,
    follow_le (try_once env attempt r s).0 (send env n (suc attempt) r) n
        (try_once env attempt r s).1
        (λ x. send_le n (suc attempt) r x (try_once env attempt r s).1),
  )

  in_case_le :
      (o : Option String) (m : Action Response) (e : String → Error) (s : State)
      → requests (m s).1.log ≤ requests s.log + 3
      → requests (in_case o m (λ x. raise (e x)) s).1.log ≤ requests s.log + 3
  in_case_le none m e s h = h
  in_case_le (some x) m e s h = omega arith

  -- A request is sent three times at most, whatever the server and the context do.
  pub do_request_with_backoff_at_most_three :
      (r : Request) (s : State)
      → requests (do_request_with_backoff env r s).1.log ≤ requests s.log + 3
  unfolding do_request_with_backoff
  do_request_with_backoff_at_most_three r s =
      in_case_le (env.limiter s.log) (send env 3 0 r nothing_yet) _
        (record s { log = Call.limiter ∷ s.log }) (send_le 3 0 r nothing_yet _)
