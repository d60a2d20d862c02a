-- ===== src/World/Monad.antt =====
-- Actions: they add to the log, may change the client's cache, and end in a value, an error or a
-- panic. What was done before an error stays done.
use azdo_kube_operator.Base.{⊤, Bool, String, Option, none, some, ◌∷◌, Dict, if◌then◌else◌, ℤ}
use azdo_kube_operator.Kube.{Time, Error, Reply, reply, fail, api_error, ApiError}
use azdo_kube_operator.World.Calls.{Call, Log}

-- `poolCacheEntry`
pub record PoolCacheEntry : Type 0 where
  pub id : ℤ
  pub expires_at : Time

pub record State : Type 0 where
  pub log : Log
  pub pool_id_cache : Dict PoolCacheEntry

pub data Result (A : Type 0) : Type 0 where
  ok : A → Result A
  err : Error → Result A
  panic : Result A

abbrev pub Action : Type 0 → Type 0
Action A = State → Result A × State

module _ {A : Type 0} where
  abbrev pub pure : A → Action A
  pure a s = (ok a, s)

  abbrev pub raise : Error → Action A
  raise e s = (err e, s)

  abbrev pub crash : Action A
  crash s = (panic, s)

  abbrev pub or_raise : Option A → Error → Action A
  or_raise none e = raise e
  or_raise (some a) e = pure a

  -- A call is answered by the history before it, and is then part of the history.
  abbrev pub call : Call → (Log → A) → Action A
  call c answer s = (ok (answer s.log), record s { log = c ∷ s.log })

  -- A look at the surroundings that leaves no trace.
  abbrev pub peek : (Log → A) → Action A
  peek answer s = (ok (answer s.log), s)

  abbrev pub gets : (State → A) → Action A
  gets f s = (ok (f s), s)

  -- An error of the API server as a Go error.
  abbrev pub lift : Reply A → Action A
  lift (reply a) = pure a
  lift (fail e) = raise (api_error e)

abbrev pub lift_error : Option ApiError → Action ⊤
lift_error none = pure tt
lift_error (some e) = raise (api_error e)

module _ {A B : Type 0} where
  abbrev pub resume : Result A → (A → Action B) → (Error → Action B) → Action B
  resume (ok a) f g s = f a s
  resume (err e) f g s = g e s
  resume panic f g s = (panic, s)

  -- `if err := m; err != nil { g(err) } else { f }`
  abbrev pub branch : Action A → (A → Action B) → (Error → Action B) → Action B
  branch m f g s = resume (m s).0 f g (m s).1

  -- `if o == nil { m } else { f(*o) }`
  abbrev pub in_case : Option A → Action B → (A → Action B) → Action B
  in_case none m f = m
  in_case (some a) m f = f a

  infixl 5 ◌>>=◌ ◌>>◌
  abbrev pub ◌>>=◌ : Action A → (A → Action B) → Action B
  m >>= f = branch m f raise

  abbrev pub ◌>>◌ : Action A → Action B → Action B
  m >> k = m >>= λ _. k

module _ {A : Type 0} where
  -- `fmt.Errorf("label: %w", err)` on the error of `m`.
  abbrev pub wrapped : String → Action A → Action A
  wrapped label m = branch m pure (λ e. raise (Error.wrap label e))

abbrev pub change_cache : (Dict PoolCacheEntry → Dict PoolCacheEntry) → Action ⊤
change_cache f s = (ok tt, record s { pool_id_cache = f s.pool_id_cache })

-- `if c { m }`
abbrev pub when : Bool → Action ⊤ → Action ⊤
when c m = if c then m else pure tt

-- `defer c()` around `m`: the result is that of `m`.
abbrev pub finally : {A : Type 0} → Action ⊤ → Action A → Action A
finally c m s = ((m s).0, (c (m s).1).1)

abbrev pub raise_if : Bool → Error → Action ⊤
raise_if c e s = (if c then err e else ok tt, s)
