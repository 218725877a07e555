-- ===== src/Run/Adds.antt =====
-- What calls an action adds to those of a run, one rule for each way to build an action.
use kibertas.Prelude.{ℕ, Bool, true, false, Option, none, some, List, ◌∷◌, ◌≡◌, if◌then◌else◌, ap}
use kibertas.Go.Errors.{Error}
use kibertas.Api.{Call, Reply, answer, refused}
use kibertas.Run.World.{
  State, Outcome, ok, fail, panicked, exited, Env, Ended, Polls, expired, satisfied,
  refused as failed, crashed, stopped, again, IsLawful,
}
use kibertas.Scope.{effect_of, posted}
use kibertas.Run.Trace.{Runs, stay, make, Runs-trans, Runs-map, Since, Runs-Since}
use kibertas.Run.Actions.{
  Action, pure, throw, panic, exit, on_error, handle, finally, deferred, ask, call, or_throw, deref,
  check_nil, continue, ◌>>=◌, issue, poll,
}

-- In a lawful environment `m` runs by steps whose calls meet `P`.
pub record Adds {A : Type 0} (P : Call → Type 0) (m : Action A) : Type 0 where
  pub at : (env : Env) → IsLawful env → (s : State) → Runs env P s (m env s).1

module _ {A : Type 0} {P : Call → Type 0} where
  pub Adds-pure : (a : A) → Adds P (pure a)
  unfolding pure
  Adds-pure a = record { at = λ env l s. stay }

  pub Adds-throw : (e : Error) → Adds P (throw {A = A} e)
  unfolding throw
  Adds-throw e = record { at = λ env l s. stay }

  pub Adds-panic : Adds P (panic {A = A})
  unfolding panic
  Adds-panic = record { at = λ env l s. stay }

  pub Adds-exit : Adds P (exit {A = A})
  unfolding exit
  Adds-exit = record { at = λ env l s. stay }

  pub Adds-ask : (f : Env → A) → Adds P (ask f)
  unfolding ask
  Adds-ask f = record { at = λ env l s. stay }

  pub Adds-call :
      (f : Env → List Call → Call → A) (c : Call)
      → P c
      → posted (effect_of c) ≡ none
      → Adds P (call f c)
  unfolding call
  Adds-call f c p q = record { at = λ env l s. make p q stay }

  pub Adds-or_throw : (r : Reply A) → Adds P (or_throw r)
  unfolding or_throw
  Adds-or_throw (answer a) = record { at = λ env l s. stay }
  Adds-or_throw (refused e) = record { at = λ env l s. stay }

  pub Adds-deref : (o : Option A) → Adds P (deref o)
  unfolding deref
  Adds-deref none = record { at = λ env l s. stay }
  Adds-deref (some a) = record { at = λ env l s. stay }

  Adds-handle :
      (r : Outcome A) (h : Error → Action A) → ((e : Error) → Adds P (h e)) → Adds P (handle r h)
  Adds-handle (ok a) h k = record { at = λ env l s. stay }
  Adds-handle (fail e) h k = record { at = λ env l s. (k e).at env l s }
  Adds-handle panicked h k = record { at = λ env l s. stay }
  Adds-handle exited h k = record { at = λ env l s. stay }

  pub Adds-on_error :
      (m : Action A) (h : Error → Action A)
      → Adds P m
      → ((e : Error) → Adds P (h e))
      → Adds P (on_error m h)
  unfolding on_error
  Adds-on_error m h km kh = record {
    at = λ env l s.
        let (r, s') = m env s in Runs-trans (km.at env l s) ((Adds-handle r h kh).at env l s');
  }

  Adds-finally : (r : Outcome A) (d : Action (Unit {0})) → Adds P d → Adds P (finally r d)
  Adds-finally exited d k = record { at = λ env l s. stay }
  Adds-finally (ok a) d k = record { at = λ env l s. k.at env l s }
  Adds-finally (fail e) d k = record { at = λ env l s. k.at env l s }
  Adds-finally panicked d k = record { at = λ env l s. k.at env l s }

  pub Adds-deferred :
      (d : Action (Unit {0})) (m : Action A) → Adds P d → Adds P m → Adds P (deferred d m)
  unfolding deferred
  Adds-deferred d m kd km = record {
    at = λ env l s.
        let (r, s') = m env s in Runs-trans (km.at env l s) ((Adds-finally r d kd).at env l s');
  }

  pub Adds-if : (b : Bool) (m n : Action A) → Adds P m → Adds P n → Adds P (if b then m else n)
  Adds-if true m n km kn = km
  Adds-if false m n km kn = kn

module _ {P : Call → Type 0} where
  pub Adds-check_nil : (o : Option Error) → Adds P (check_nil o)
  unfolding check_nil
  Adds-check_nil none = record { at = λ env l s. stay }
  Adds-check_nil (some e) = record { at = λ env l s. stay }

  pub Adds-issue : (c : Call) → P c → posted (effect_of c) ≡ none → Adds P (issue c)
  unfolding issue
  Adds-issue c p q = record {
    at = λ env l s.
        Runs-trans (make p q stay)
          ((Adds-check_nil (env.issue s.calls c)).at env l (record s { calls = c ∷ s.calls }));
  }

module _ {A B : Type 0} {P : Call → Type 0} where
  Adds-continue :
      (r : Outcome A) (f : A → Action B) → ((a : A) → Adds P (f a)) → Adds P (continue r f)
  Adds-continue (ok a) f k = record { at = λ env l s. (k a).at env l s }
  Adds-continue (fail e) f k = record { at = λ env l s. stay }
  Adds-continue panicked f k = record { at = λ env l s. stay }
  Adds-continue exited f k = record { at = λ env l s. stay }

  pub Adds-bind :
      (m : Action A) (f : A → Action B) → Adds P m → ((a : A) → Adds P (f a)) → Adds P (m >>= f)
  unfolding ◌>>=◌
  Adds-bind m f km kf = record {
    at = λ env l s.
        let (r, s') = m env s in Runs-trans (km.at env l s) ((Adds-continue r f kf).at env l s');
  }

module _ {P : Call → Type 0} (c : Action Bool) (k : Adds P c) (env : Env) (l : IsLawful env) where
  abbrev step_from : {s s' : State} {r : Outcome Bool} → c env s ≡ (r, s') → Runs env P s s'
  step_from {s} e = rw (ap (λ (p : Outcome Bool × State). p.1) e) at (k.at env l s)

  Polls-Runs : {first : Bool} {s : State} {r : Ended} → Polls (c env) first s r → Runs env P s r.1
  Polls-Runs (expired e) = stay
  Polls-Runs (satisfied e) = step_from e
  Polls-Runs (failed e) = step_from e
  Polls-Runs (crashed e) = step_from e
  Polls-Runs (stopped e) = step_from e
  Polls-Runs (again e p) = Runs-trans (step_from e) (Polls-Runs p)

pub Adds-poll :
    {P : Call → Type 0} (interval timeout : ℕ) (immediate : Bool) (c : Action Bool)
    → Adds P c
    → Adds P (poll interval timeout immediate c)
unfolding poll
Adds-poll interval timeout immediate c k = record {
  at = λ env l s. Polls-Runs c k env l (l.polls interval timeout immediate (c env) s);
}

-- Its calls meet whatever follows from `P`.
pub Adds-map :
    {A : Type 0} {P Q : Call → Type 0} {m : Action A}
    → ((c : Call) → P c → Q c)
    → Adds P m
    → Adds Q m
Adds-map f k = record { at = λ env l s. Runs-map f (k.at env l s) }

-- The steps from one state of a run to the next, and the calls.
module _ {A : Type 0} {P : Call → Type 0} {m : Action A} (k : Adds P m) (env : Env)
    (l : IsLawful env) where
  pub Adds-Since : (s : State) → Since P s.calls (m env s).1.calls
  Adds-Since s = Runs-Since (k.at env l s)

  module _ {r : Outcome A} {s t : State} (e : m env s ≡ (r, t)) where
    pub Runs-from : Runs env P s t
    Runs-from = rw (ap (λ (p : Outcome A × State). p.1) e) at (k.at env l s)

    pub Adds-from : Since P s.calls t.calls
    Adds-from = Runs-Since Runs-from

pub ruleset adds_rules = (
  Adds-pure, Adds-throw, Adds-panic, Adds-exit, Adds-ask, Adds-call, Adds-or_throw, Adds-deref,
  Adds-on_error, Adds-deferred, Adds-if, Adds-check_nil, Adds-issue, Adds-bind, Adds-poll,
)
