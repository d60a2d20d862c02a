-- ===== src/Devops/Effects.antt =====
-- Which calls the client makes: the requests are those that a predicate allows, and the rest
-- are its own pauses, clocks and bodies.
use azdo_kube_operator.Base.{ℕ, zero, suc, String, ℤ}
use azdo_kube_operator.World.{
  Env, Request, Call, HttpReply, response, transport_failure, Response, Action,
}
use azdo_kube_operator.World.Footprint.{Adds, Adds-pure, Adds-bind, same, adds_rules}
use azdo_kube_operator.Devops.{
  jittered, retry_delay, pause, close, rate_limited, after_reply, try_once, Last, got, failed,
  nothing_yet, again, done, Round, follow, conclude, send, do_request_with_backoff,
}

-- The calls of the client, with its requests under `Q`.
pub data Uses (Q : Request → Type 0) : Call → Type 0 where
  asks : {r : Request} → Q r → Uses Q (Call.http r)
  closes : {b : ℕ} → Uses Q (Call.close_body b)
  reads : {b : ℕ} → Uses Q (Call.read_body b)
  clocks : Uses Q Call.clock
  draws : {n : ℕ} → Uses Q (Call.random n)
  limits : Uses Q Call.limiter
  waits : {d : ℤ} → Uses Q (Call.wait d)

pub ruleset uses = (asks, closes, reads, clocks, draws, limits, waits)

module _ (env : Env) (Q : Request → Type 0) where
  pub pause-Uses : (d : ℤ) → Adds (Uses Q) (pause env d)
  unfolding pause
  pause-Uses d = search (adds_rules, uses)

  retry_delay-Uses : (n : ℕ) (h : String) → Adds (Uses Q) (retry_delay env n h)
  unfolding retry_delay
  retry_delay-Uses n h = search (adds_rules, uses)

  rate_limited-Uses : (n : ℕ) (r : Response) → Adds (Uses Q) (rate_limited env n r)
  unfolding rate_limited close
  rate_limited-Uses n r = search (adds_rules, uses, pause-Uses, retry_delay-Uses)

  jittered-Uses : (n : ℕ) → Adds (Uses Q) (jittered env n)
  unfolding jittered
  jittered-Uses n = search (adds_rules, uses)

  pub after_reply-Uses : (n : ℕ) (h : HttpReply) → Adds (Uses Q) (after_reply env n h)
  unfolding after_reply
  after_reply-Uses n (transport_failure e) = search (adds_rules, pause-Uses, jittered-Uses) depth 8
  after_reply-Uses n (response r) = search (adds_rules, rate_limited-Uses)

  try_once-Uses : (n : ℕ) (r : Request) → Q r → Adds (Uses Q) (try_once env n r)
  unfolding try_once
  try_once-Uses n r q = search (adds_rules, uses, after_reply-Uses)

  follow-Uses :
      (round : Round) (f : Last → Action Response)
      → ((l : Last) → Adds (Uses Q) (f l))
      → Adds (Uses Q) (follow round f)
  follow-Uses (again l) f k = k l
  follow-Uses (done r) f k = Adds-pure r

  send-Uses :
      (n attempt : ℕ) (r : Request) (l : Last) → Q r → Adds (Uses Q) (send env n attempt r l)
  unfolding send conclude
  send-Uses zero attempt r nothing_yet q = record { at = λ s. same }
  send-Uses zero attempt r (got x) q = record { at = λ s. same }
  send-Uses zero attempt r (failed e) q = record { at = λ s. same }
  send-Uses (suc n) attempt r l q =
      Adds-bind _ _ (try_once-Uses attempt r q)
        (λ round. follow-Uses round _ (λ x. send-Uses n (suc attempt) r x q))

  pub do_request_with_backoff-Uses :
      (r : Request) → Q r → Adds (Uses Q) (do_request_with_backoff env r)
  unfolding do_request_with_backoff
  do_request_with_backoff-Uses r q = search (adds_rules, uses, send-Uses)
