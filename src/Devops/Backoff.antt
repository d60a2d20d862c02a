-- ===== src/Devops/Backoff.antt =====
-- `doRequestWithBackoff`: at most three attempts, with a pause after each that failed.
use azdo_kube_operator.Base.{
  ℕ, zero, suc, ◌+◌, ◌-◌, ◌*◌, ◌/◌, ◌^◌, ◌%◌, ⊤, Bool, true, false, String, Option, none, some, ℤ,
  pos, negsuc, int64, eqb_ℤ, ◌==◌, if◌then◌else◌, atoi,
}
use azdo_kube_operator.Kube.{
  CtxError, canceled, deadline_exceeded, wrap, library_error, context_error,
}
use azdo_kube_operator.World.{
  Env, Action, pure, raise, crash, peek, in_case, ◌>>=◌, ◌>>◌, Request, Response, HttpReply,
  response, transport_failure, Call, call,
}
use azdo_kube_operator.Devops.Client.{second, default_max_retries, close}

-- The variables `resp` and `err` of the loop.
pub data Last : Type 0 where
  nothing_yet : Last
  got : Response → Last
  failed : String → Last

-- How one round of the loop ends, where it ends in no error.
pub data Round : Type 0 where
  again : Last → Round
  done : Response → Round

abbrev pub follow : Round → (Last → Action Response) → Action Response
follow (again last) rest = rest last
follow (done resp) rest = pure resp

-- `time.Duration(n) * time.Second`, in 64 bits.
unfoldable pub duration_of_seconds : ℤ → ℤ
unfolding int64
duration_of_seconds (pos n) = int64 (n * second)
duration_of_seconds (negsuc n) = int64 (2 ^ 64 - suc n * second % 2 ^ 64)

-- The pause that the header `Retry-After` asks for; 0 where it is absent or no number.
unfoldable pub header_delay : String → ℤ
unfolding duration_of_seconds atoi
header_delay header = elim (atoi header) [ none ↦ pos 0 | some n ↦ duration_of_seconds n ]

abbrev pub is_canceled : Option CtxError → Bool
is_canceled (some canceled) = true
is_canceled (some deadline_exceeded) = false
is_canceled none = false

-- `defaultRetryBaseDelay * time.Duration(1<<attempt)`
abbrev pub backoff : ℕ → ℕ
backoff attempt = second * 2 ^ attempt

module _ (env : Env) where
  -- `backoff + jitter`
  unfoldable pub jittered : ℕ → Action ℤ
  jittered attempt = do
    let bound = backoff attempt / 2
    jitter ← call (Call.random bound) (λ l. env.random l bound)
    pure (pos (backoff attempt + jitter))

  -- The `select` on `time.After(delay)` and `ctx.Done()`.
  unfoldable pub pause : ℤ → Action ⊤
  pause delay = do
    stopped ← call (Call.wait delay) (λ l. env.wait l delay)
    in_case stopped (pure tt) (λ e. raise (context_error e))

  unfoldable pub retry_delay : ℕ → String → Action ℤ
  unfolding jittered header_delay
  retry_delay attempt header =
      if eqb_ℤ (header_delay header) (pos 0) then jittered attempt else pure (header_delay header)

  unfoldable pub rate_limited : ℕ → Response → Action Round
  unfolding pause retry_delay close
  rate_limited attempt resp = do
    delay ← retry_delay attempt resp.retry_after
    close resp.body
    pause delay
    pure (again (got resp))

  unfoldable pub after_reply : ℕ → HttpReply → Action Round
  unfolding jittered pause rate_limited
  after_reply attempt (transport_failure e) = do
    context ← peek env.context
    if is_canceled context
        then raise (wrap "request canceled" (library_error e))
        else do delay ← jittered attempt; pause delay; pure (again (failed e))
  after_reply attempt (response resp) =
      if resp.status == 429 then rate_limited attempt resp else pure (done resp)

  unfoldable pub try_once : ℕ → Request → Action Round
  unfolding after_reply
  try_once attempt req = do
    answer ← call (Call.http req) (λ l. env.http l req)
    after_reply attempt answer

  -- `return resp, err` behind the loop. With no round made both are nil.
  unfoldable pub conclude : Last → Action Response
  conclude nothing_yet = crash
  conclude (got resp) = pure resp
  conclude (failed e) = raise (library_error e)

  -- The loop, by the number of rounds left.
  unfoldable pub send : ℕ → ℕ → Request → Last → Action Response
  unfolding try_once conclude
  send zero attempt req last = conclude last
  send (suc n) attempt req last = do
    round ← try_once attempt req
    follow round (send n (suc attempt) req)

  unfoldable pub do_request_with_backoff : Request → Action Response
  unfolding send
  do_request_with_backoff req = do
    refused ← call Call.limiter env.limiter
    in_case refused (send default_max_retries 0 req nothing_yet)
        (λ e. raise (wrap "rate limiter wait" (library_error e)))
