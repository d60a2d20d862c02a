-- ===== src/World/Caches.antt =====
-- Actions that leave the client's cache alone.
use azdo_kube_operator.Base.{
  ◌≡◌, refl, ◌∙◌, String, Bool, true, false, Option, none, some, if◌then◌else◌,
}
use azdo_kube_operator.Kube.{Error}
use azdo_kube_operator.World.Calls.{Call, Log}
use azdo_kube_operator.World.Monad.{
  State, Result, ok, err, panic, Action, pure, raise, call, peek, gets, or_raise, resume, branch,
  ◌>>=◌, wrapped, in_case,
}

pub record KeepsCache {A : Type 0} (m : Action A) : Type 0 where
  pub at : (s : State) → (m s).1.pool_id_cache ≡ s.pool_id_cache

module _ {A : Type 0} where
  pub KeepsCache-pure : (a : A) → KeepsCache (pure a)
  KeepsCache-pure a = record { at = λ s. refl }

  pub KeepsCache-raise : (e : Error) → KeepsCache (raise {A = A} e)
  KeepsCache-raise e = record { at = λ s. refl }

  pub KeepsCache-call : (c : Call) (f : Log → A) → KeepsCache (call c f)
  KeepsCache-call c f = record { at = λ s. refl }

  pub KeepsCache-peek : (f : Log → A) → KeepsCache (peek f)
  KeepsCache-peek f = record { at = λ s. refl }

  pub KeepsCache-gets : (f : State → A) → KeepsCache (gets f)
  KeepsCache-gets f = record { at = λ s. refl }

  pub KeepsCache-or_raise : (o : Option A) (e : Error) → KeepsCache (or_raise o e)
  KeepsCache-or_raise none e = record { at = λ s. refl }
  KeepsCache-or_raise (some a) e = record { at = λ s. refl }

  pub KeepsCache-if :
      (b : Bool) (m n : Action A) → KeepsCache m → KeepsCache n → KeepsCache (if b then m else n)
  KeepsCache-if true m n km kn = km
  KeepsCache-if false m n km kn = kn

module _ {A B : Type 0} where
  resumed :
      (r : Result A) (f : A → Action B) (g : Error → Action B) (s : State)
      → ((a : A) → KeepsCache (f a))
      → ((e : Error) → KeepsCache (g e))
      → (resume r f g s).1.pool_id_cache ≡ s.pool_id_cache
  resumed (ok a) f g s kf kg = (kf a).at s
  resumed (err e) f g s kf kg = (kg e).at s
  resumed panic f g s kf kg = refl

  pub KeepsCache-branch :
      (m : Action A) (f : A → Action B) (g : Error → Action B)
      → KeepsCache m
      → ((a : A) → KeepsCache (f a))
      → ((e : Error) → KeepsCache (g e))
      → KeepsCache (branch m f g)
  KeepsCache-branch m f g km kf kg = record {
    at = λ s. resumed (m s).0 f g (m s).1 kf kg ∙ km.at s;
  }

  pub KeepsCache-in_case :
      (o : Option A) (m : Action B) (f : A → Action B)
      → KeepsCache m
      → ((a : A) → KeepsCache (f a))
      → KeepsCache (in_case o m f)
  KeepsCache-in_case none m f km kf = km
  KeepsCache-in_case (some a) m f km kf = kf a

  pub KeepsCache-bind :
      (m : Action A) (f : A → Action B)
      → KeepsCache m
      → ((a : A) → KeepsCache (f a))
      → KeepsCache (m >>= f)
  KeepsCache-bind m f km kf = KeepsCache-branch m f raise km kf KeepsCache-raise

module _ {A : Type 0} where
  pub KeepsCache-wrapped :
      (label : String) (m : Action A) → KeepsCache m → KeepsCache (wrapped label m)
  KeepsCache-wrapped label m k =
      KeepsCache-branch m pure _ k KeepsCache-pure (λ e. KeepsCache-raise _)

pub ruleset cache_rules = (
  KeepsCache-pure, KeepsCache-raise, KeepsCache-call, KeepsCache-peek, KeepsCache-gets,
  KeepsCache-or_raise, KeepsCache-if, KeepsCache-branch, KeepsCache-in_case, KeepsCache-bind,
)
