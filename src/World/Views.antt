-- ===== src/World/Views.antt =====
-- Actions that leave a view of the log as it was.
use azdo_kube_operator.Base.{
  ◌≡◌, refl, ◌∙◌, String, Bool, true, false, Option, none, some, ◌∷◌, if◌then◌else◌,
}
use azdo_kube_operator.Kube.{Error, Reply, reply, fail}
use azdo_kube_operator.World.Calls.{Call, Log}
use azdo_kube_operator.World.Monad.{
  State, Result, ok, err, panic, Action, pure, raise, call, lift, resume, branch, ◌>>=◌, wrapped,
  in_case,
}
use azdo_kube_operator.World.Footprint.{Adds, Extends, same, more}

module _ {V : Type 0} (view : Log → V) where
  pub record Leaves {A : Type 0} (m : Action A) : Type 0 where
    pub at : (s : State) → view (m s).1.log ≡ view s.log

  -- The call does not show in the view.
  abbrev pub Unseen : Call → Type 0
  Unseen c = (l : Log) → view (c ∷ l) ≡ view l

  Extends-Unseen : {a b : Log} → Extends Unseen a b → view b ≡ view a
  Extends-Unseen same = refl
  Extends-Unseen (more {m = m} p h) = p m ∙ Extends-Unseen h

  pub Leaves-Adds : {A : Type 0} (m : Action A) → Adds Unseen m → Leaves m
  Leaves-Adds m h = record { at = λ s. Extends-Unseen (h.at s) }

module _ {V : Type 0} {view : Log → V} {A : Type 0} where
  pub Leaves-pure : (a : A) → Leaves view (pure a)
  Leaves-pure a = record { at = λ s. refl }

  pub Leaves-raise : (e : Error) → Leaves view (raise {A = A} e)
  Leaves-raise e = record { at = λ s. refl }

  pub Leaves-call : (c : Call) (f : Log → A) → Unseen view c → Leaves view (call c f)
  Leaves-call c f h = record { at = λ s. h s.log }

  pub Leaves-lift : (r : Reply A) → Leaves view (lift r)
  Leaves-lift (reply a) = Leaves-pure a
  Leaves-lift (fail e) = Leaves-raise _

  pub Leaves-if :
      (b : Bool) (m n : Action A) → Leaves view m → Leaves view n → Leaves view (if b then m else n)
  Leaves-if true m n km kn = km
  Leaves-if false m n km kn = kn

module _ {V : Type 0} {view : Log → V} {A B : Type 0} where
  resumed :
      (r : Result A) (f : A → Action B) (g : Error → Action B) (s : State)
      → ((a : A) → Leaves view (f a))
      → ((e : Error) → Leaves view (g e))
      → view (resume r f g s).1.log ≡ view s.log
  resumed (ok a) f g s kf kg = (kf a).at s
  resumed (err e) f g s kf kg = (kg e).at s
  resumed panic f g s kf kg = refl

  pub Leaves-branch :
      (m : Action A) (f : A → Action B) (g : Error → Action B)
      → Leaves view m
      → ((a : A) → Leaves view (f a))
      → ((e : Error) → Leaves view (g e))
      → Leaves view (branch m f g)
  Leaves-branch m f g km kf kg = record { at = λ s. resumed (m s).0 f g (m s).1 kf kg ∙ km.at s }

  pub Leaves-in_case :
      (o : Option A) (m : Action B) (f : A → Action B)
      → Leaves view m
      → ((a : A) → Leaves view (f a))
      → Leaves view (in_case o m f)
  Leaves-in_case none m f km kf = km
  Leaves-in_case (some a) m f km kf = kf a

  pub Leaves-bind :
      (m : Action A) (f : A → Action B)
      → Leaves view m
      → ((a : A) → Leaves view (f a))
      → Leaves view (m >>= f)
  Leaves-bind m f km kf = Leaves-branch m f raise km kf Leaves-raise

module _ {V : Type 0} {view : Log → V} {A : Type 0} where
  pub Leaves-wrapped :
      (label : String) (m : Action A) → Leaves view m → Leaves view (wrapped label m)
  Leaves-wrapped label m k = Leaves-branch m pure _ k Leaves-pure (λ e. Leaves-raise _)

pub ruleset leaves_rules = (
  Leaves-pure, Leaves-raise, Leaves-call, Leaves-lift, Leaves-bind, Leaves-branch, Leaves-if,
  Leaves-in_case, Leaves-wrapped,
)
