-- ===== src/Run/Lives.antt =====
-- Actions that never end the process, so that what is deferred around them runs.
use kibertas.Prelude.{ℕ, Bool, true, false, Option, none, some, List, ◌≡◌, refl, if◌then◌else◌, ap}
use kibertas.Go.Errors.{Error}
use kibertas.Api.{Call, Reply, answer, refused}
use kibertas.Run.World.{
  State, Outcome, ok, fail, panicked, exited, Env, Ended, Polls, expired, satisfied,
  refused as failed, crashed, stopped, again, IsLawful,
}
use kibertas.Run.Actions.{
  Action, pure, throw, panic, on_error, handle, finally, and_then, deferred, ask, call, or_throw,
  deref, check_nil, continue, ◌>>=◌, issue, poll,
}

abbrev pub IsAlive : {A : Type 0} → Outcome A → Type 0
IsAlive (ok a) = Unit
IsAlive (fail e) = Unit
IsAlive panicked = Unit
IsAlive exited = ⊥

pub record Lives {A : Type 0} (m : Action A) : Type 0 where
  pub at : (env : Env) → IsLawful env → (s : State) → IsAlive (m env s).0

module _ {A : Type 0} where
  pub Lives-pure : (a : A) → Lives (pure a)
  unfolding pure
  Lives-pure a = record { at = λ env l s. tt }

  pub Lives-throw : (e : Error) → Lives (throw {A = A} e)
  unfolding throw
  Lives-throw e = record { at = λ env l s. tt }

  pub Lives-panic : Lives (panic {A = A})
  unfolding panic
  Lives-panic = record { at = λ env l s. tt }

  pub Lives-ask : (f : Env → A) → Lives (ask f)
  unfolding ask
  Lives-ask f = record { at = λ env l s. tt }

  pub Lives-call : (f : Env → List Call → Call → A) (c : Call) → Lives (call f c)
  unfolding call
  Lives-call f c = record { at = λ env l s. tt }

  pub Lives-or_throw : (r : Reply A) → Lives (or_throw r)
  unfolding or_throw
  Lives-or_throw (answer a) = record { at = λ env l s. tt }
  Lives-or_throw (refused e) = record { at = λ env l s. tt }

  pub Lives-deref : (o : Option A) → Lives (deref o)
  unfolding deref
  Lives-deref none = record { at = λ env l s. tt }
  Lives-deref (some a) = record { at = λ env l s. tt }

  handle-IsAlive :
      (r : Outcome A) (h : Error → Action A)
      → IsAlive r
      → ((e : Error) → Lives (h e))
      → (env : Env) → IsLawful env
      → (s : State) → IsAlive (handle r h env s).0
  handle-IsAlive (ok a) h v k env l s = tt
  handle-IsAlive (fail e) h v k env l s = (k e).at env l s
  handle-IsAlive panicked h v k env l s = tt
  handle-IsAlive exited h v k env l s = v

  pub Lives-on_error :
      (m : Action A) (h : Error → Action A)
      → Lives m
      → ((e : Error) → Lives (h e))
      → Lives (on_error m h)
  unfolding on_error
  Lives-on_error m h km kh = record {
    at = λ env l s. handle-IsAlive (m env s).0 h (km.at env l s) kh env l (m env s).1;
  }

  and_then-IsAlive :
      (r : Outcome A) (d : Outcome (Unit {0})) → IsAlive r → IsAlive d → IsAlive (and_then r d)
  and_then-IsAlive r (ok u) v w = v
  and_then-IsAlive r (fail e) v w = v
  and_then-IsAlive r panicked v w = tt
  and_then-IsAlive r exited v w = w

  finally-IsAlive :
      (r : Outcome A) (d : Action (Unit {0}))
      → IsAlive r
      → Lives d
      → (env : Env) → IsLawful env
      → (s : State) → IsAlive (finally r d env s).0
  finally-IsAlive (ok a) d v k env l s = and_then-IsAlive (ok a) _ tt (k.at env l s)
  finally-IsAlive (fail e) d v k env l s = and_then-IsAlive (fail e) _ tt (k.at env l s)
  finally-IsAlive panicked d v k env l s = and_then-IsAlive panicked _ tt (k.at env l s)
  finally-IsAlive exited d v k env l s = v

  pub Lives-deferred :
      (d : Action (Unit {0})) (m : Action A) → Lives d → Lives m → Lives (deferred d m)
  unfolding deferred
  Lives-deferred d m kd km = record {
    at = λ env l s. finally-IsAlive (m env s).0 d (km.at env l s) kd env l (m env s).1;
  }

  pub Lives-if : (b : Bool) (m n : Action A) → Lives m → Lives n → Lives (if b then m else n)
  Lives-if true m n km kn = km
  Lives-if false m n km kn = kn

  -- what is deferred around an action that lives runs from the state that it leaves
  finally_state :
      (r : Outcome A) (d : Action (Unit {0})) (env : Env) (s : State)
      → IsAlive r
      → finally r d env s ≡ (and_then r (d env s).0, (d env s).1)
  finally_state (ok a) d env s v = refl
  finally_state (fail e) d env s v = refl
  finally_state panicked d env s v = refl
  finally_state exited d env s v = absurd v

  pub deferred_lem :
      (d : Action (Unit {0})) (m : Action A)
      → Lives m
      → (env : Env) → IsLawful env
      → (s : State)
      → let (r, s') = m env s in deferred d m env s ≡ (and_then r (d env s').0, (d env s').1)
  unfolding deferred
  deferred_lem d m k env l s = finally_state (m env s).0 d env (m env s).1 (k.at env l s)

pub Lives-check_nil : (o : Option Error) → Lives (check_nil o)
unfolding check_nil
Lives-check_nil none = record { at = λ env l s. tt }
Lives-check_nil (some e) = record { at = λ env l s. tt }

module _ {A B : Type 0} where
  continue-IsAlive :
      (r : Outcome A) (f : A → Action B)
      → IsAlive r
      → ((a : A) → Lives (f a))
      → (env : Env) → IsLawful env
      → (s : State) → IsAlive (continue r f env s).0
  continue-IsAlive (ok a) f v k env l s = (k a).at env l s
  continue-IsAlive (fail e) f v k env l s = tt
  continue-IsAlive panicked f v k env l s = tt
  continue-IsAlive exited f v k env l s = v

  pub Lives-bind :
      (m : Action A) (f : A → Action B) → Lives m → ((a : A) → Lives (f a)) → Lives (m >>= f)
  unfolding ◌>>=◌
  Lives-bind m f km kf = record {
    at = λ env l s. continue-IsAlive (m env s).0 f (km.at env l s) kf env l (m env s).1;
  }

pub Lives-issue : (c : Call) → Lives (issue c)
unfolding issue
Lives-issue c =
    Lives-bind (call (λ env. env.issue) c) check_nil (Lives-call (λ env. env.issue) c)
      Lives-check_nil

module _ (c : Action Bool) (k : Lives c) (env : Env) (l : IsLawful env) where
  Polls-IsAlive : {first : Bool} {s : State} {r : Ended} → Polls (c env) first s r → IsAlive r.0
  Polls-IsAlive (expired e) = tt
  Polls-IsAlive (satisfied e) = tt
  Polls-IsAlive (failed e) = tt
  Polls-IsAlive (crashed e) = tt
  Polls-IsAlive (stopped {s = s} e) =
      rw (ap (λ (p : Outcome Bool × State). p.0) e) at (k.at env l s)
  Polls-IsAlive (again e p) = Polls-IsAlive p

pub Lives-poll :
    (interval timeout : ℕ) (immediate : Bool) (c : Action Bool)
    → Lives c
    → Lives (poll interval timeout immediate c)
unfolding poll
Lives-poll interval timeout immediate c k = record {
  at = λ env l s. Polls-IsAlive c k env l (l.polls interval timeout immediate (c env) s);
}

pub ruleset lives_rules = (
  Lives-pure, Lives-throw, Lives-panic, Lives-ask, Lives-call, Lives-or_throw, Lives-deref,
  Lives-on_error, Lives-deferred, Lives-if, Lives-check_nil, Lives-issue, Lives-bind, Lives-poll,
)
