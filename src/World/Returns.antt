-- ===== src/World/Returns.antt =====
-- Actions that return a value, whatever the surroundings answer.
use azdo_kube_operator.Base.{◌≡◌, ◌≢◌, refl, Bool, true, false, Option, none, some, if◌then◌else◌}
use azdo_kube_operator.Kube.{Error}
use azdo_kube_operator.World.Calls.{Call, Log}
use azdo_kube_operator.World.Monad.{
  State, Result, ok, err, panic, Action, pure, raise, call, resume, branch, ◌>>=◌, in_case,
}
use azdo_kube_operator.World.Survival.{Survives}

pub record Returns {A : Type 0} (m : Action A) : Type 0 where
  pub at : (s : State) → (a : A) × ((m s).0 ≡ ok a)

module _ {A : Type 0} where
  pub Returns-pure : (a : A) → Returns (pure a)
  Returns-pure a = record { at = λ s. (a, refl) }

  pub Returns-call : (c : Call) (f : Log → A) → Returns (call c f)
  Returns-call c f = record { at = λ s. (f s.log, refl) }

  pub Returns-if :
      (b : Bool) (m n : Action A) → Returns m → Returns n → Returns (if b then m else n)
  Returns-if true m n km kn = km
  Returns-if false m n km kn = kn

module _ {A B : Type 0} where
  returned :
      (r : Result A) (f : A → Action B) (s : State)
      → (a : A) × (r ≡ ok a)
      → ((a : A) → Returns (f a))
      → (b : B) × ((resume r f raise s).0 ≡ ok b)
  returned (ok a) f s h kf = (kf a).at s
  returned (err e) f s h kf = cc
  returned panic f s h kf = cc

  pub Returns-bind :
      (m : Action A) (f : A → Action B) → Returns m → ((a : A) → Returns (f a)) → Returns (m >>= f)
  Returns-bind m f km kf = record { at = λ s. returned (m s).0 f (m s).1 (km.at s) kf }

  caught :
      (r : Result A) (f : A → Action B) (g : Error → Action B) (s : State)
      → r ≢ panic
      → ((a : A) → Returns (f a))
      → ((e : Error) → Returns (g e))
      → (b : B) × ((resume r f g s).0 ≡ ok b)
  caught (ok a) f g s h kf kg = (kf a).at s
  caught (err e) f g s h kf kg = (kg e).at s
  caught panic f g s h kf kg = absurd (h refl)

  -- An error is handled; a panic is not.
  pub Returns-branch :
      (m : Action A) (f : A → Action B) (g : Error → Action B)
      → Survives m
      → ((a : A) → Returns (f a))
      → ((e : Error) → Returns (g e))
      → Returns (branch m f g)
  Returns-branch m f g km kf kg = record { at = λ s. caught (m s).0 f g (m s).1 (km.at s) kf kg }

  pub Returns-in_case :
      (o : Option A) (m : Action B) (f : A → Action B)
      → Returns m
      → ((a : A) → Returns (f a))
      → Returns (in_case o m f)
  Returns-in_case none m f km kf = km
  Returns-in_case (some a) m f km kf = kf a

pub ruleset return_rules =
    (Returns-pure, Returns-call, Returns-if, Returns-bind, Returns-branch, Returns-in_case)
