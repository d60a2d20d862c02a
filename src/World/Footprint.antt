-- ===== src/World/Footprint.antt =====
-- What an action may add to the log: a predicate that every added call satisfies.
use azdo_kube_operator.Base.{
  Dict, ◌≡◌, refl, String, count_if, ⊤, Bool, true, false, Option, none, some, ◌∷◌, if◌then◌else◌,
}
use azdo_kube_operator.Kube.{Error, Reply, reply, fail, ApiError}
use azdo_kube_operator.World.Calls.{Call, Log}
use azdo_kube_operator.World.Monad.{
  State, PoolCacheEntry, Result, ok, err, panic, Action, pure, raise, call, peek, gets, or_raise,
  lift, lift_error, resume, branch, ◌>>=◌, finally, when, raise_if, wrapped, in_case, change_cache,
}

pub data Extends (P : Call → Type 0) (l : Log) : Log → Type 0 where
  same : Extends P l l
  more : {c : Call} {m : Log} → P c → Extends P l m → Extends P l (c ∷ m)

module _ {P : Call → Type 0} where
  pub Extends-trans : {a b c : Log} → Extends P a b → Extends P b c → Extends P a c
  Extends-trans h same = h
  Extends-trans h (more p k) = more p (Extends-trans h k)

pub record Adds (P : Call → Type 0) {A : Type 0} (m : Action A) : Type 0 where
  pub at : (s : State) → Extends P s.log (m s).1.log

module _ {P : Call → Type 0} {A : Type 0} where
  pub Adds-pure : (a : A) → Adds P (pure a)
  Adds-pure a = record { at = λ s. same }

  pub Adds-raise : (e : Error) → Adds P (raise {A = A} e)
  Adds-raise e = record { at = λ s. same }

  pub Adds-call : (c : Call) (f : Log → A) → P c → Adds P (call c f)
  Adds-call c f p = record { at = λ s. more p same }

  pub Adds-peek : (f : Log → A) → Adds P (peek f)
  Adds-peek f = record { at = λ s. same }

  pub Adds-gets : (f : State → A) → Adds P (gets f)
  Adds-gets f = record { at = λ s. same }

  pub Adds-or_raise : (o : Option A) (e : Error) → Adds P (or_raise o e)
  Adds-or_raise none e = record { at = λ s. same }
  Adds-or_raise (some a) e = record { at = λ s. same }

  pub Adds-lift : (r : Reply A) → Adds P (lift r)
  Adds-lift (reply a) = record { at = λ s. same }
  Adds-lift (fail e) = record { at = λ s. same }

  pub Adds-if : (b : Bool) (m n : Action A) → Adds P m → Adds P n → Adds P (if b then m else n)
  Adds-if true m n km kn = km
  Adds-if false m n km kn = kn

  -- A branch may use which way the test went.
  pub Adds-if_known :
      (b : Bool) (m n : Action A)
      → (b ≡ true → Adds P m)
      → (b ≡ false → Adds P n)
      → Adds P (if b then m else n)
  Adds-if_known true m n km kn = km refl
  Adds-if_known false m n km kn = kn refl

  pub Adds-finally : (c : Action ⊤) (m : Action A) → Adds P c → Adds P m → Adds P (finally c m)
  Adds-finally c m kc km = record { at = λ s. Extends-trans (km.at s) (kc.at (m s).1) }

module _ {P : Call → Type 0} where
  pub Adds-lift_error : (o : Option ApiError) → Adds P (lift_error o)
  Adds-lift_error none = record { at = λ s. same }
  Adds-lift_error (some e) = record { at = λ s. same }

  pub Adds-change_cache : (f : Dict PoolCacheEntry → Dict PoolCacheEntry) → Adds P (change_cache f)
  Adds-change_cache f = record { at = λ s. same }

  pub Adds-raise_if : (b : Bool) (e : Error) → Adds P (raise_if b e)
  Adds-raise_if b e = record { at = λ s. same }

  pub Adds-when : (b : Bool) (m : Action ⊤) → Adds P m → Adds P (when b m)
  Adds-when true m k = k
  Adds-when false m k = record { at = λ s. same }

module _ {P : Call → Type 0} {A B : Type 0} where
  Extends-resume :
      (r : Result A) (f : A → Action B) (g : Error → Action B) (s : State)
      → ((a : A) → Adds P (f a))
      → ((e : Error) → Adds P (g e))
      → Extends P s.log (resume r f g s).1.log
  Extends-resume (ok a) f g s kf kg = (kf a).at s
  Extends-resume (err e) f g s kf kg = (kg e).at s
  Extends-resume panic f g s kf kg = same

  pub Adds-branch :
      (m : Action A) (f : A → Action B) (g : Error → Action B)
      → Adds P m
      → ((a : A) → Adds P (f a))
      → ((e : Error) → Adds P (g e))
      → Adds P (branch m f g)
  Adds-branch m f g km kf kg = record {
    at = λ s. Extends-trans (km.at s) (Extends-resume (m s).0 f g (m s).1 kf kg);
  }

  pub Adds-in_case :
      (o : Option A) (m : Action B) (f : A → Action B)
      → Adds P m
      → ((a : A) → Adds P (f a))
      → Adds P (in_case o m f)
  Adds-in_case none m f km kf = km
  Adds-in_case (some a) m f km kf = kf a

  pub Adds-bind :
      (m : Action A) (f : A → Action B) → Adds P m → ((a : A) → Adds P (f a)) → Adds P (m >>= f)
  Adds-bind m f km kf = Adds-branch m f raise km kf Adds-raise

module _ {P : Call → Type 0} {A : Type 0} where
  pub Adds-wrapped : (label : String) (m : Action A) → Adds P m → Adds P (wrapped label m)
  Adds-wrapped label m k = Adds-branch m pure _ k Adds-pure (λ e. Adds-raise _)

pub ruleset adds_rules = (
  Adds-pure, Adds-raise, Adds-call, Adds-peek, Adds-gets, Adds-or_raise, Adds-lift, Adds-lift_error,
  Adds-raise_if, Adds-change_cache, Adds-bind, Adds-branch, Adds-if, Adds-in_case, Adds-when,
  Adds-finally, Adds-wrapped,
)

-- A weaker predicate.
module _ {P Q : Call → Type 0} (weaken : (c : Call) → P c → Q c) where
  pub Extends-weaken : {a b : Log} → Extends P a b → Extends Q a b
  Extends-weaken same = same
  Extends-weaken (more {c = c} p h) = more (weaken c p) (Extends-weaken h)

  pub Adds-weaken : {A : Type 0} (m : Action A) → Adds P m → Adds Q m
  Adds-weaken m k = record { at = λ s. Extends-weaken (k.at s) }

-- A test that no added call passes keeps its count.
pub count_if-Extends :
    (test : Call → Bool) {a b : Log}
    → Extends (λ c. test c ≡ false) a b
    → count_if test b ≡ count_if test a
count_if-Extends test same = refl
count_if-Extends test (more p h) = rw p (count_if-Extends test h)
