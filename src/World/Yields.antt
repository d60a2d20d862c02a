-- ===== src/World/Yields.antt =====
-- Actions that return a value with a property, from each state.
use azdo_kube_operator.Base.{◌≡◌, refl, String, ⊤}
use azdo_kube_operator.Kube.{Error}
use azdo_kube_operator.World.Calls.{Call, Log}
use azdo_kube_operator.World.Monad.{
  State, Result, ok, Action, pure, raise, call, resume, branch, ◌>>=◌, finally, wrapped,
}
use azdo_kube_operator.World.Returns.{Returns}

pub record Yields {A : Type 0} (P : A → Type 0) (m : Action A) : Type 0 where
  pub at : (s : State) → (a : A) × ((m s).0 ≡ ok a) × P a

-- Any value.
abbrev pub Any : {A : Type 0} → A → Type 0
Any a = Unit

module _ {A : Type 0} {P : A → Type 0} where
  pub Yields-pure : (a : A) → P a → Yields P (pure a)
  Yields-pure a p = record { at = λ s. (a, refl, p) }

  pub Yields-call : (c : Call) (f : Log → A) → ((l : Log) → P (f l)) → Yields P (call c f)
  Yields-call c f p = record { at = λ s. (f s.log, refl, p s.log) }

  pub Yields-finally : (c : Action ⊤) (m : Action A) → Yields P m → Yields P (finally c m)
  Yields-finally c m k = record { at = k.at }

pub Returns-Yields : {A : Type 0} (m : Action A) → Returns m → Yields Any m
Returns-Yields m k = record { at = λ s. let (a, e) = k.at s in (a, e, tt) }

module _ {A B : Type 0} {Q : A → Type 0} {P : B → Type 0} where
  resumed :
      (r : Result A) (f : A → Action B) (g : Error → Action B) (s : State)
      → ((a : A) × (r ≡ ok a) × Q a)
      → ((a : A) → Q a → Yields P (f a))
      → (b : B) × ((resume r f g s).0 ≡ ok b) × P b
  resumed r f g s (a, e, q) k = rw e ((k a q).at s)

  -- What follows a success is all that counts.
  pub Yields-branch :
      (m : Action A) (f : A → Action B) (g : Error → Action B)
      → Yields Q m
      → ((a : A) → Q a → Yields P (f a))
      → Yields P (branch m f g)
  Yields-branch m f g h k = record { at = λ s. resumed (m s).0 f g (m s).1 (h.at s) k }

  pub Yields-bind :
      (m : Action A) (f : A → Action B)
      → Yields Q m
      → ((a : A) → Q a → Yields P (f a))
      → Yields P (m >>= f)
  Yields-bind m f h k = Yields-branch m f raise h k

module _ {A : Type 0} {P : A → Type 0} where
  pub Yields-wrapped : (label : String) (m : Action A) → Yields P m → Yields P (wrapped label m)
  Yields-wrapped label m h = Yields-branch m pure _ h (λ a p. Yields-pure a p)
