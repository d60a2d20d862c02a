-- ===== src/Devops/Costs.antt =====
-- How many requests an operation sends at most.
use azdo_kube_operator.Base.{
  ◌≡◌, refl, ℕ, ◌+◌, ◌≤◌, arith, ⊤, Bool, true, false, String, Option, none, ◌∷◌, ℤ,
}
use azdo_kube_operator.Kube.{Error}
use azdo_kube_operator.World.{
  Env, State, Call, Action, Result, ok, err, panic, resume, raise, pure, ◌>>=◌, wrapped, when,
  Request, HttpReply, response, transport_failure, http_patch, http_delete, agent_of, Method,
  Endpoint, Payload,
}
use azdo_kube_operator.World.Footprint.{Adds, Adds-call, Adds-pure, adds_rules, count_if-Extends}
use azdo_kube_operator.Devops.{
  AzureDevOpsClient, new_request, do_request, answered, close, read_all, bad_status, check_ids,
  deleted, disable_agent, delete_agent, do_request_with_backoff,
}
use azdo_kube_operator.Devops.Retries.{is_http, requests, do_request_with_backoff_at_most_three}

pub record Costs (n : ℕ) {A : Type 0} (m : Action A) : Type 0 where
  pub at : (s : State) → requests (m s).1.log ≤ requests s.log + n

abbrev Unasked : Call → Type 0
Unasked c = is_http c ≡ false

module _ {A : Type 0} where
  Costs-quiet : (m : Action A) → Adds Unasked m → Costs 0 m
  Costs-quiet m q = record { at = λ s. let e = count_if-Extends is_http (q.at s) in omega arith }

  pub Costs-pure : (a : A) → Costs 0 (pure a)
  Costs-pure a = Costs-quiet (pure a) (Adds-pure a)

  pub Costs-weaken : {n k : ℕ} (m : Action A) → n ≤ k → Costs n m → Costs k m
  Costs-weaken m h c = record { at = λ s. omega (arith, c.at s) }

pub Costs-when : (n : ℕ) (b : Bool) (m : Action ⊤) → Costs n m → Costs n (when b m)
Costs-when n true m c = c
Costs-when n false m c = record { at = λ s. omega arith }

module _ {A B : Type 0} where
  resumed :
      (n : ℕ) (x : Result A) (f : A → Action B) (s : State)
      → ((a : A) → Costs n (f a))
      → requests (resume x f raise s).1.log ≤ requests s.log + n
  resumed n (ok a) f s k = (k a).at s
  resumed n (err e) f s k = omega arith
  resumed n panic f s k = omega arith

  pub Costs-bind :
      (n k : ℕ) (m : Action A) (f : A → Action B)
      → Costs n m
      → ((a : A) → Costs k (f a))
      → Costs (n + k) (m >>= f)
  Costs-bind n k m f c d = record { at = λ s. omega (arith, c.at s, resumed k (m s).0 f (m s).1 d) }

module _ {A : Type 0} where
  labelled :
      (label : String) (x : Result A) (s : State)
      → (resume x pure (λ e. raise (Error.wrap label e)) s).1 ≡ s
  labelled label (ok a) s = refl
  labelled label (err e) s = refl
  labelled label panic s = refl

  pub Costs-wrapped :
      (n : ℕ) (label : String) (m : Action A) → Costs n m → Costs n (wrapped label m)
  Costs-wrapped n label m c = record { at = λ s. rw (labelled label (m s).0 (m s).1) (c.at s) }

close-Unasked : (b : ℕ) → Adds Unasked (close b)
unfolding close
close-Unasked b = Adds-call _ _ refl

module _ (env : Env) where
  read_all-Unasked : (b : ℕ) → Adds Unasked (read_all env b)
  unfolding read_all
  read_all-Unasked b = Adds-call _ _ refl

  pub do_request_with_backoff-Costs : (r : Request) → Costs 3 (do_request_with_backoff env r)
  do_request_with_backoff-Costs r = record { at = do_request_with_backoff_at_most_three env r }

  answered-Unasked : (h : HttpReply) → Adds Unasked (answered h)
  answered-Unasked (response resp) = search adds_rules
  answered-Unasked (transport_failure e) = search adds_rules

  do_request-Costs : (r : Request) → Costs 1 (do_request env r)
  unfolding do_request
  do_request-Costs r = record {
    at = λ s.
        let h = env.http s.log r in
        omega (
          arith,
          (Costs-quiet (answered h) (answered-Unasked h)).at
              (record s { log = Call.http r ∷ s.log }),
        );
  }

  module _ (client : AzureDevOpsClient) where
    new_request-Costs :
        (m : Method) (e : Endpoint) (p : Option Payload) → Costs 0 (new_request env client m e p)
    unfolding new_request
    new_request-Costs m e p = Costs-quiet (new_request env client m e p) (search adds_rules)

    pub disable_agent-Costs : (pool agent : ℤ) → Costs 1 (disable_agent env client pool agent)
    unfolding disable_agent check_ids bad_status
    disable_agent-Costs pool agent =
        Costs-bind 0 1 (check_ids pool agent) _
          (Costs-quiet (check_ids pool agent) (search adds_rules))
          (λ u. Costs-bind 0 1 _ _ (new_request-Costs http_patch (agent_of pool agent) _) (λ req.
            Costs-bind 1 0 _ _ (do_request-Costs req)
              (λ resp. Costs-quiet _ (search (adds_rules, close-Unasked, read_all-Unasked)))))

    pub delete_agent-Costs : (pool agent : ℤ) → Costs 3 (delete_agent env client pool agent)
    unfolding delete_agent deleted
    delete_agent-Costs pool agent =
        Costs-bind 0 3 _ _ (new_request-Costs http_delete (agent_of pool agent) none) (λ req.
          Costs-bind 3 0 _ _ (Costs-wrapped 3 _ _ (do_request_with_backoff-Costs req))
            (λ resp. Costs-quiet _ (search (adds_rules, close-Unasked, read_all-Unasked))))
