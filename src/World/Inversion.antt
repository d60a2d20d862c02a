-- ===== src/World/Inversion.antt =====
-- What a successful action says of its parts.
use azdo_kube_operator.Base.{◌≡◌, refl, String, ◌⊎◌, inl, inr}
use azdo_kube_operator.Kube.{Error, Reply, reply, fail, ApiError}
use azdo_kube_operator.World.Monad.{
  State, Result, ok, err, panic, Action, raise, resume, pure, wrapped, ◌>>=◌,
}

module _ {A B : Type 0} where
  resume-eq-ok :
      (r : Result A) (f : A → Action B) (s : State) {b : B}
      → (resume r f raise s).0 ≡ ok b
      → (a : A) × (r ≡ ok a) × (resume r f raise s ≡ f a s)
  resume-eq-ok (ok a) f s h = (a, refl, refl)
  resume-eq-ok (err e) f s h = cc
  resume-eq-ok panic f s h = cc

  -- A bind that succeeds has a first part that succeeds, and goes on with the second.
  pub bind-eq-ok :
      (m : Action A) (f : A → Action B) (s : State) {b : B}
      → ((m >>= f) s).0 ≡ ok b
      → (a : A) × ((m s).0 ≡ ok a) × ((m >>= f) s ≡ f a (m s).1)
  bind-eq-ok m f s h = resume-eq-ok (m s).0 f (m s).1 h

module _ {A : Type 0} where
  wrapped_result :
      (label : String) (r : Result A) (s : State) {a : A}
      → (resume r pure (λ e. raise (Error.wrap label e)) s).0 ≡ ok a
      → r ≡ ok a
  wrapped_result label (ok a) s h = h
  wrapped_result label (err e) s h = cc
  wrapped_result label panic s h = cc

  pub wrapped-eq-ok :
      (label : String) (m : Action A) (s : State) {a : A}
      → (wrapped label m s).0 ≡ ok a
      → (m s).0 ≡ ok a
  wrapped-eq-ok label m s h = wrapped_result label (m s).0 (m s).1 h

pub Reply-cases :
    {A : Type 0} (r : Reply A) → ((a : A) × (r ≡ reply a)) ⊎ ((e : ApiError) × (r ≡ fail e))
Reply-cases (reply a) = inl (a, refl)
Reply-cases (fail e) = inr (e, refl)
