-- ===== src/World/Survival.antt =====
-- Actions that do not panic.
use azdo_kube_operator.Base.{
  ◌≢◌, refl, ⊤, String, Bool, true, false, Option, none, some, if◌then◌else◌, Dict,
}
use azdo_kube_operator.Kube.{Error, Reply, reply, fail, ApiError}
use azdo_kube_operator.World.Calls.{Call, Log}
use azdo_kube_operator.World.Monad.{
  State, PoolCacheEntry, Result, ok, err, panic, Action, pure, raise, call, peek, gets, or_raise,
  lift, lift_error, resume, branch, ◌>>=◌, finally, when, raise_if, wrapped, in_case, change_cache,
}

pub record Survives {A : Type 0} (m : Action A) : Type 0 where
  pub at : (s : State) → (m s).0 ≢ panic

module _ {A : Type 0} where
  pub Survives-pure : (a : A) → Survives (pure a)
  Survives-pure a = record { at = λ s e. cc }

  pub Survives-raise : (e : Error) → Survives (raise {A = A} e)
  Survives-raise e = record { at = λ s e. cc }

  pub Survives-call : (c : Call) (f : Log → A) → Survives (call c f)
  Survives-call c f = record { at = λ s e. cc }

  pub Survives-peek : (f : Log → A) → Survives (peek f)
  Survives-peek f = record { at = λ s e. cc }

  pub Survives-gets : (f : State → A) → Survives (gets f)
  Survives-gets f = record { at = λ s e. cc }

  pub Survives-or_raise : (o : Option A) (e : Error) → Survives (or_raise o e)
  Survives-or_raise none e = Survives-raise e
  Survives-or_raise (some a) e = Survives-pure a

  pub Survives-lift : (r : Reply A) → Survives (lift r)
  Survives-lift (reply a) = Survives-pure a
  Survives-lift (fail e) = Survives-raise _

  pub Survives-if :
      (b : Bool) (m n : Action A) → Survives m → Survives n → Survives (if b then m else n)
  Survives-if true m n km kn = km
  Survives-if false m n km kn = kn

  pub Survives-finally : (c : Action ⊤) (m : Action A) → Survives m → Survives (finally c m)
  Survives-finally c m km = record { at = km.at }

pub Survives-lift_error : (o : Option ApiError) → Survives (lift_error o)
Survives-lift_error none = Survives-pure tt
Survives-lift_error (some e) = Survives-raise _

pub Survives-change_cache :
    (f : Dict PoolCacheEntry → Dict PoolCacheEntry) → Survives (change_cache f)
Survives-change_cache f = record { at = λ s e. cc }

pub Survives-raise_if : (b : Bool) (e : Error) → Survives (raise_if b e)
Survives-raise_if true e = record { at = λ s e. cc }
Survives-raise_if false e = record { at = λ s e. cc }

pub Survives-when : (b : Bool) (m : Action ⊤) → Survives m → Survives (when b m)
Survives-when true m k = k
Survives-when false m k = Survives-pure tt

module _ {A B : Type 0} where
  resumed :
      (r : Result A) (f : A → Action B) (g : Error → Action B) (s : State)
      → r ≢ panic
      → ((a : A) → Survives (f a))
      → ((e : Error) → Survives (g e))
      → (resume r f g s).0 ≢ panic
  resumed (ok a) f g s h kf kg = (kf a).at s
  resumed (err e) f g s h kf kg = (kg e).at s
  resumed panic f g s h kf kg = λ e. h refl

  pub Survives-branch :
      (m : Action A) (f : A → Action B) (g : Error → Action B)
      → Survives m
      → ((a : A) → Survives (f a))
      → ((e : Error) → Survives (g e))
      → Survives (branch m f g)
  Survives-branch m f g km kf kg = record { at = λ s. resumed (m s).0 f g (m s).1 (km.at s) kf kg }

  pub Survives-in_case :
      (o : Option A) (m : Action B) (f : A → Action B)
      → Survives m
      → ((a : A) → Survives (f a))
      → Survives (in_case o m f)
  Survives-in_case none m f km kf = km
  Survives-in_case (some a) m f km kf = kf a

  pub Survives-bind :
      (m : Action A) (f : A → Action B)
      → Survives m
      → ((a : A) → Survives (f a))
      → Survives (m >>= f)
  Survives-bind m f km kf = Survives-branch m f raise km kf Survives-raise

module _ {A : Type 0} where
  pub Survives-wrapped : (label : String) (m : Action A) → Survives m → Survives (wrapped label m)
  Survives-wrapped label m k = Survives-branch m pure _ k Survives-pure (λ e. Survives-raise _)

pub ruleset survival_rules = (
  Survives-pure, Survives-raise, Survives-call, Survives-peek, Survives-gets, Survives-or_raise,
  Survives-lift, Survives-lift_error, Survives-raise_if, Survives-change_cache, Survives-bind,
  Survives-branch, Survives-if, Survives-in_case, Survives-when, Survives-finally, Survives-wrapped,
)
