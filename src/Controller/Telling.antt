-- ===== src/Controller/Telling.antt =====
-- A reconciliation and its event: each ends in an outcome that fits the one event that it records.
use azdo_kube_operator.Base.{
  ℕ, suc, ◌≡◌, ◌≢◌, refl, String, Option, none, some, ◌∷◌, count_if, arith,
}
use azdo_kube_operator.Kube.{Message, Error}
use azdo_kube_operator.World.{
  State, Call, Log, Action, Result, ok, err, panic, resume, raise, branch, ◌>>=◌, EventType, normal,
  warning,
}
use azdo_kube_operator.World.Footprint.{Adds, Extends, count_if-Extends, Extends-weaken}
use azdo_kube_operator.Controller.{Outcome}
use azdo_kube_operator.Controller.Quiet.{Quiet, is_event}

abbrev pub events : EventType → Log → ℕ
events t = count_if (is_event t)

-- What an action still owes: the event of its outcome, or only the outcome that fits the event that
-- was recorded.
pub data Due : Type 0 where
  either : Due
  told : EventType → Due

abbrev pub Counted : Due → Log → Log → Option Error → Type 0
Counted either l m none =
    (events normal m ≡ suc (events normal l)) × (events warning m ≡ events warning l)
Counted either l m (some e) =
    (events normal m ≡ events normal l) × (events warning m ≡ suc (events warning l))
Counted (told normal) l m none =
    (events normal m ≡ events normal l) × (events warning m ≡ events warning l)
Counted (told normal) l m (some e) = ⊥
Counted (told warning) l m none = ⊥
Counted (told warning) l m (some e) =
    (events normal m ≡ events normal l) × (events warning m ≡ events warning l)

-- How a reconciliation ends: in an outcome, or in a panic, and not in an error beside the outcome.
abbrev pub Told : Due → Log → Result Outcome × State → Type 0
Told due l (ok o, s) = Counted due l s.log o.error
Told due l (err e, s) = ⊥
Told due l (panic, s) = Unit

pub record Tells (due : Due) (m : Action Outcome) : Type 0 where
  pub at : (s : State) → Told due s.log (m s)

-- An action with no error.
pub record Calm {A : Type 0} (m : Action A) : Type 0 where
  pub at : (s : State) (e : Error) → (m s).0 ≢ err e

Same : Log → Log → Type 0
Same l m = (events normal m ≡ events normal l) × (events warning m ≡ events warning l)

Extends-Same : {l m : Log} → Extends Quiet l m → Same l m
unfolding Same
Extends-Same h = (
  count_if-Extends (is_event normal) (Extends-weaken (λ c q. q.no_normal) h),
  count_if-Extends (is_event warning) (Extends-weaken (λ c q. q.no_warning) h),
)

Counted-shift :
    (due : Due) (l l' m : Log) (o : Option Error)
    → Same l l'
    → Counted due l' m o
    → Counted due l m o
unfolding Same
Counted-shift either l l' m none (a, b) (c, d) = (omega arith, omega arith)
Counted-shift either l l' m (some e) (a, b) (c, d) = (omega arith, omega arith)
Counted-shift (told normal) l l' m none (a, b) (c, d) = (omega arith, omega arith)
Counted-shift (told normal) l l' m (some e) h k = k
Counted-shift (told warning) l l' m none h k = k
Counted-shift (told warning) l l' m (some e) (a, b) (c, d) = (omega arith, omega arith)

Told-shift :
    (due : Due) (l l' : Log) (r : Result Outcome) (s : State)
    → Same l l'
    → Told due l' (r, s)
    → Told due l (r, s)
Told-shift due l l' (ok o) s h k = Counted-shift due l l' s.log o.error h k
Told-shift due l l' (err e) s h k = k
Told-shift due l l' panic s h k = k

module _ {A : Type 0} (due : Due) where
  resume-Told :
      (r : Result A) (f : A → Action Outcome) (g : Error → Action Outcome) (l : Log) (s : State)
      → Same l s.log
      → ((a : A) → Tells due (f a))
      → ((e : Error) → r ≡ err e → Tells due (g e))
      → Told due l (resume r f g s)
  resume-Told (ok a) f g l s h kf kg = Told-shift due l s.log _ _ h ((kf a).at s)
  resume-Told (err e) f g l s h kf kg = Told-shift due l s.log _ _ h ((kg e refl).at s)
  resume-Told panic f g l s h kf kg = tt

  pub Tells-branch :
      (m : Action A) (f : A → Action Outcome) (g : Error → Action Outcome)
      → Adds Quiet m
      → ((a : A) → Tells due (f a))
      → ((e : Error) → Tells due (g e))
      → Tells due (branch m f g)
  Tells-branch m f g q kf kg = record {
    at = λ s. resume-Told (m s).0 f g s.log (m s).1 (Extends-Same (q.at s)) kf (λ e h. kg e);
  }

  pub Tells-bind :
      (m : Action A) (f : A → Action Outcome)
      → Adds Quiet m
      → Calm m
      → ((a : A) → Tells due (f a))
      → Tells due (m >>= f)
  Tells-bind m f q calm kf = record {
    at = λ s.
        resume-Told (m s).0 f raise s.log (m s).1 (Extends-Same (q.at s)) kf
          (λ e h. absurd (calm.at s e h));
  }

Counted-event :
    (t : EventType) (l m : Log) (reason : String) (text : Message) (o : Option Error)
    → Counted (told t) (Call.record_event t reason text ∷ l) m o
    → Counted either l m o
Counted-event normal l m reason text none h = h
Counted-event normal l m reason text (some e) h = absurd h
Counted-event warning l m reason text none h = absurd h
Counted-event warning l m reason text (some e) h = h

pub Told-event :
    (t : EventType) (l : Log) (reason : String) (text : Message) (r : Result Outcome) (s : State)
    → Told (told t) (Call.record_event t reason text ∷ l) (r, s)
    → Told either l (r, s)
Told-event t l reason text (ok o) s h = Counted-event t l s.log reason text o.error h
Told-event t l reason text (err e) s h = h
Told-event t l reason text panic s h = h
