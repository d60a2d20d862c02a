-- ===== src/Controller/Endings.antt =====
-- What the outcome of an action says of its parts.
use azdo_kube_operator.Base.{◌≡◌, ◌≢◌, refl, subst, ap, sym, ◌∙◌, String, none, some}
use azdo_kube_operator.Kube.{AzureDevOps, Message, said, said_of, Error}
use azdo_kube_operator.World.{
  Env, State, Action, ◌>>=◌, ◌>>◌, branch, resume, pure, Call, call, normal, Result, ok, err, panic,
  record_event,
}
use azdo_kube_operator.World.Inversion.{bind-eq-ok}
use azdo_kube_operator.Usecase.{CtrlResult, after}
use azdo_kube_operator.Controller.{
  Outcome, returned, update_status, event, report, observe, conclude, queue_failed,
  failure_interval, deployment_key,
}

-- Every outcome that the action ends with has a property.
pub record Gives (P : Outcome → Type 0) (m : Action Outcome) : Type 0 where
  pub at : (s : State) (o : Outcome) → (m s).0 ≡ ok o → P o

abbrev pub HasError : Outcome → Type 0
HasError o = o.error ≢ none

ok_same : {A : Type 0} {a b : A} → Result.ok a ≡ ok b → a ≡ b
ok_same h = cc

module _ {P : Outcome → Type 0} where
  Gives-pure : (o : Outcome) → P o → Gives P (pure o)
  Gives-pure o p = record { at = λ s x h. subst P (ok_same h) p }

  pub Gives-bind :
      {A : Type 0} (m : Action A) (f : A → Action Outcome)
      → ((a : A) → Gives P (f a))
      → Gives P (m >>= f)
  Gives-bind m f k = record {
    at = λ s o h.
        let (a, done, e) = bind-eq-ok m f s h in (k a).at (m s).1 o (ap (λ x. x.0) (sym e) ∙ h);
  }

  resumed :
      {A : Type 0} (r : Result A) (f : A → Action Outcome) (g : Error → Action Outcome) (s : State)
      (o : Outcome)
      → ((a : A) → r ≡ ok a → Gives P (f a))
      → ((e : Error) → Gives P (g e))
      → (resume r f g s).0 ≡ ok o
      → P o
  resumed (ok a) f g s o kf kg h = (kf a refl).at s o h
  resumed (err e) f g s o kf kg h = (kg e).at s o h
  resumed panic f g s o kf kg h = cc

  pub Gives-branch :
      {A : Type 0} (m : Action A) (f : A → Action Outcome) (g : Error → Action Outcome)
      → ((a : A) → Gives P (f a))
      → ((e : Error) → Gives P (g e))
      → Gives P (branch m f g)
  Gives-branch m f g kf kg = record {
    at = λ s o h. resumed (m s).0 f g (m s).1 o (λ a e. kf a) kg h;
  }

  -- What would follow a success of an action that never succeeds does not matter.
  pub Gives-failing :
      {A : Type 0} (m : Action A) (f : A → Action Outcome) (g : Error → Action Outcome)
      → ((s : State) (a : A) → (m s).0 ≢ ok a)
      → ((e : Error) → Gives P (g e))
      → Gives P (branch m f g)
  Gives-failing m f g never kg = record {
    at = λ s o h. resumed (m s).0 f g (m s).1 o (λ a e. absurd (never s a e)) kg h;
  }

pub returned-HasError : (r : CtrlResult) (e : Error) → Gives HasError (returned r (some e))
returned-HasError r e = Gives-pure _ (λ n. cc)

module _ {A : Type 0} where
  resume_clean :
      (r : Result A) (f : A → Action Outcome) (g : Error → Action Outcome) (s : State) (o : Outcome)
      → ((e : Error) → Gives HasError (g e))
      → (resume r f g s).0 ≡ ok o
      → o.error ≡ none
      → (a : A) × (r ≡ ok a) × (resume r f g s ≡ f a s)
  resume_clean (ok a) f g s o k h n = (a, refl, refl)
  resume_clean (err e) f g s o k h n = absurd ((k e).at s o h n)
  resume_clean panic f g s o k h n = cc

  -- A branch whose failures are errors ends well only through a success.
  pub branch_clean :
      (m : Action A) (f : A → Action Outcome) (g : Error → Action Outcome) (s : State) (o : Outcome)
      → ((e : Error) → Gives HasError (g e))
      → (branch m f g s).0 ≡ ok o
      → o.error ≡ none
      → (a : A) × ((m s).0 ≡ ok a) × (branch m f g s ≡ f a (m s).1)
  branch_clean m f g s o k h n = resume_clean (m s).0 f g (m s).1 o k h n

module _ (env : Env) where
  pub reported-HasError :
      (cr : AzureDevOps) (reason : String) (a b : Message) (r : CtrlResult) (e : Error)
      → Gives HasError (report env cr reason a b >> returned r (some e))
  reported-HasError cr reason a b r e =
      Gives-bind (report env cr reason a b) (λ u. returned r (some e)) (λ u. returned-HasError r e)

  pub queue_failed-HasError :
      (cr : AzureDevOps) (e : Error) → Gives HasError (queue_failed env cr e)
  unfolding queue_failed
  queue_failed-HasError cr e =
      Gives-bind
        (report env cr "AzureDevOpsError" (said_of "Failed to get queue length" e)
          (said_of "Failed to get queue length" e))
        _
        λ u. Gives-bind (failure_interval env cr.status.last_failed_check) _ λ delay.
          Gives-bind (call Call.clock (λ l. tt)) (λ u. returned (after delay) (some e))
            (λ u. returned-HasError (after delay) e)

  -- The result of a conclusion is the one that it was given, with no error.
  pub conclude_result :
      (copy : AzureDevOps) (result : CtrlResult) (cr : AzureDevOps)
      → Gives (λ o. (o.result ≡ result) × (o.error ≡ none)) (conclude env copy (result, cr))
  unfolding conclude event
  conclude_result copy result cr =
      let key = deployment_key cr in
      Gives-bind (call (Call.get_deployment key) (λ l. env.get_deployment l key)) _ λ found.
        Gives-bind (observe env copy found) _ λ seen.
          Gives-bind
            (update_status env seen "Ready"
              (said "Successfully reconciled Azure DevOps agent pool"))
            _
            λ u.
              Gives-bind
                (call
                  (record_event normal "Reconciled"
                    (said "Successfully reconciled Azure DevOps agent pool"))
                  (λ l. tt))
                (λ v. returned result none) (λ v. Gives-pure _ (refl, refl))
