-- ===== src/Run/Shows.antt =====
-- What the success of an action shows: something has been observed while it ran.
use mathlib.Core.Path.{subst}
use kibertas.Prelude.{ℕ, Bool, true, String, List, ◌≡◌, ap}
use kibertas.Go.Errors.{wrapped}
use kibertas.Api.{Call}
use kibertas.Run.World.{State, Outcome, ok, Env, IsLawful}
use kibertas.Run.Actions.{Action, throw, on_error, deferred, ◌>>=◌, poll}
use kibertas.Run.Adds.{Adds, Adds-map, Adds-from, Adds-Since}
use kibertas.Run.Trace.{Since, Runs-Since}
use kibertas.Run.Seen.{Anything, Seen, Seen-Since, Since-Seen}
use kibertas.Run.Makes.{Makes, Walks, Walks-made}
use kibertas.Run.Success.{>>=-ok, deferred-ok, poll-throw-ok}

-- Between two moments of a run something has been observed: between earlier and later moments it has been
-- observed too.
pub record IsObservation (R : List Call → List Call → Type 0) : Type 0 where
  pub before : {older old new : List Call} → Since Anything older old → R old new → R older new
  pub after : {old new newer : List Call} → Since Anything new newer → R old new → R old newer

pub Seen-IsObservation : {Q : List Call → Call → Type 0} → IsObservation (Seen Q)
Seen-IsObservation = record { before = Since-Seen; after = Seen-Since }

-- both of two things
abbrev pub Both :
    (List Call → List Call → Type 0)
    → (List Call → List Call → Type 0)
    → List Call
    → List Call
    → Type 0
Both R S old new = R old new × S old new

pub Both-IsObservation :
    {R S : List Call → List Call → Type 0}
    → IsObservation R
    → IsObservation S
    → IsObservation (Both R S)
Both-IsObservation r s = record {
  before = λ h (p, q). (r.before h p, s.before h q);
  after = λ h (p, q). (r.after h p, s.after h q);
}

-- something of some `a` that meets `P`
abbrev pub Some :
    (A : Type 0)
    → (A → Type 0)
    → (A → List Call → List Call → Type 0)
    → List Call
    → List Call
    → Type 0
Some A P R old new = (a : A) × P a × R a old new

pub Some-IsObservation :
    {A : Type 0} {P : A → Type 0} {R : A → List Call → List Call → Type 0}
    → ((a : A) → IsObservation (R a))
    → IsObservation (Some A P R)
Some-IsObservation r = record {
  before = λ h (a, p, q). (a, p, (r a).before h q);
  after = λ h (a, p, q). (a, p, (r a).after h q);
}

-- If `m` returns a value, `R` has been observed.
pub record Shows {A : Type 0} (env : Env) (R : List Call → List Call → Type 0) (m : Action A)
    : Type 0 where
  pub at : (s : State) {a : A} {t : State} → m env s ≡ (ok a, t) → R s.calls t.calls

pub any_call : {A : Type 0} {P : Call → Type 0} {m : Action A} → Adds P m → Adds Anything m
any_call k = Adds-map (λ c p. tt) k

pub Shows-Both :
    {A : Type 0} {env : Env} {R S : List Call → List Call → Type 0} {m : Action A}
    → Shows env R m
    → Shows env S m
    → Shows env (Both R S) m
Shows-Both r s = record { at = λ x h. (r.at x h, s.at x h) }

module _ {env : Env} {R : List Call → List Call → Type 0} (l : IsLawful env)
    (o : IsObservation R) where
  module _ {A B : Type 0} (m : Action A) (f : A → Action B) where
    -- the first part of a sequence shows it
    pub Shows-first : Shows env R m → ((a : A) → Adds Anything (f a)) → Shows env R (m >>= f)
    Shows-first k rest = record {
      at = λ s h.
          let (a, s', p, q) = >>=-ok m f env s h in o.after (Adds-from (rest a) env l q) (k.at s p);
    }

    -- the rest does, given what holds of the value
    pub Shows-made :
        {Q : A → Type 0}
        → Makes env Q m
        → Adds Anything m
        → ((a : A) → Q a → Shows env R (f a))
        → Shows env R (m >>= f)
    Shows-made makes first k = record {
      at = λ s h.
          let (a, s', p, q) = >>=-ok m f env s h in
          o.before (Adds-from first env l p) ((k a (makes.at s p)).at s' q);
    }

    -- the rest does
    pub Shows-rest : Adds Anything m → ((a : A) → Shows env R (f a)) → Shows env R (m >>= f)
    Shows-rest first k =
        Shows-made {Q = λ a. Unit {0}} (record { at = λ s h. tt }) first (λ a u. k a)

  pub Shows-deferred :
      {A : Type 0} (d : Action (Unit {0})) (m : Action A)
      → Adds Anything d
      → Shows env R m
      → Shows env R (deferred d m)
  Shows-deferred d m last k = record {
    at = λ s h.
        let (s', p, q) = deferred-ok d m env s h in
        o.after
          (subst (λ (x : State). Since Anything s'.calls x.calls) q (Adds-Since last env l s'))
          (k.at s p);
  }

  -- a poll whose condition shows it when it says true
  pub Shows-poll :
      (interval timeout : ℕ) (immediate : Bool) (front : String) (c : Action Bool)
      → Adds Anything c
      → ((s t : State) → c env s ≡ (ok true, t) → R s.calls t.calls)
      → Shows env R (on_error (poll interval timeout immediate c) (λ e. throw (wrapped front e)))
  Shows-poll interval timeout immediate front c k seen = record {
    at = λ s h.
        let (s', since, e) = poll-throw-ok c k env l interval timeout immediate front s h in
        o.before since (seen s' _ e);
  }

Walks-from :
    {A : Type 0} {env : Env} (m : Action A) {r : Outcome A} {s t : State}
    → Walks env Anything m
    → m env s ≡ (r, t)
    → Since Anything s.calls t.calls
Walks-from {A} {env} m {r} {s} walks h =
    subst (λ (x : State). Since Anything s.calls x.calls) (ap (λ (p : Outcome A × State). p.1) h)
      (Runs-Since (walks s))

-- An action that shows an observation, with what a sequence of such actions needs.
pub record Observes {A : Type 0} (env : Env) (R : List Call → List Call → Type 0) (m : Action A)
    : Type 0 where
  pub observation : IsObservation R
  pub walks : Walks env Anything m
  pub shows : Shows env R m

-- one after the other
pub Observes-then :
    {A B : Type 0} {env : Env} {R S : List Call → List Call → Type 0} {m : Action A} {k : Action B}
    → Observes env R m
    → Observes env S k
    → Observes env (Both R S) (m >>= λ a. k)
Observes-then {env} {m} {k} om ok' = record {
  observation = Both-IsObservation om.observation ok'.observation;
  walks =
      Walks-made {Q = λ a. Unit {0}} m (λ a. k) (record { at = λ s h. tt }) om.walks
        (λ a u. ok'.walks);
  shows = record {
    at = λ x h.
        let (a, y, p, q) = >>=-ok m (λ a. k) env x h in
        (
          om.observation.after (Walks-from k ok'.walks q) (om.shows.at x p),
          ok'.observation.before (Walks-from m om.walks p) (ok'.shows.at y q),
        );
  };
}
