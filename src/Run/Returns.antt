-- ===== src/Run/Returns.antt =====
-- Total correctness: actions that return a value, from any state, in an environment.
use kibertas.Prelude.{
  ◌<◌, ◌^◌, ℕ, Bool, true, false, Option, none, some, List, ◌∷◌, ◌≡◌, refl, ap, ◌∙◌, if◌then◌else◌,
}
use kibertas.Go.Errors.{Error}
use kibertas.Api.{Call, Reply, answer}
use kibertas.Run.World.{State, Outcome, ok, Env}
use kibertas.Run.Success.{>>=-of_ok}
use kibertas.Run.Makes.{Makes}
use kibertas.Run.Actions.{
  Action, pure, on_error, handle, finally, deferred, ask, call, or_throw, deref, check_nil, ◌>>=◌,
  poll,
}

-- From any state `m` returns a value, of which `Q` holds.
pub record Returns {A : Type 0} (env : Env) (Q : A → Type 0) (m : Action A) : Type 0 where
  pub at : (s : State) → (a : A) × (t : State) × (m env s ≡ (ok a, t)) × Q a

-- From any state `m` returns a value.
pub record Succeeds {A : Type 0} (env : Env) (m : Action A) : Type 0 where
  pub at : (s : State) → (a : A) × (t : State) × (m env s ≡ (ok a, t))

-- What a poll needs of its environment: if its timeout is longer than the interval, and not negative as
-- an `int64`, it ends when its condition is met the first time.
abbrev pub IsPatient : Env → Type 0
IsPatient env =
    (interval timeout : ℕ) (immediate : Bool) (c : State → Outcome Bool × State) (s t : State)
    → interval < timeout
    → timeout < 2 ^ 63
    → c s ≡ (ok true, t)
    → env.poll_until interval timeout immediate c s ≡ (ok tt, t)

module _ {A : Type 0} {env : Env} where
  pub Returns-Succeeds : {Q : A → Type 0} {m : Action A} → Returns env Q m → Succeeds env m
  Returns-Succeeds h = record { at = λ s. let (a, t, e, q) = h.at s in (a, t, e) }

  pub Returns-pure : {Q : A → Type 0} (a : A) → Q a → Returns env Q (pure a)
  unfolding pure
  Returns-pure a q = record { at = λ s. (a, s, refl, q) }

  -- as a value of which nothing is said
  pub Succeeds-Returns : {m : Action A} → Succeeds env m → Returns env (λ a. Unit {0}) m
  Succeeds-Returns h = record { at = λ s. let (a, t, e) = h.at s in (a, t, e, tt) }

  pub Succeeds-pure : (a : A) → Succeeds env (pure a)
  Succeeds-pure a = Returns-Succeeds {Q = λ x. Unit {0}} (Returns-pure a tt)

  pub Succeeds-or_throw : (r : Reply A) {a : A} → r ≡ answer a → Succeeds env (or_throw r)
  unfolding or_throw
  Succeeds-or_throw r {a} h = record { at = λ s. (a, s, rw h refl) }

  pub Succeeds-ask : (f : Env → A) → Succeeds env (ask f)
  unfolding ask
  Succeeds-ask f = record { at = λ s. (f env, s, refl) }

  pub Succeeds-call : (f : Env → List Call → Call → A) (c : Call) → Succeeds env (call f c)
  unfolding call
  Succeeds-call f c = record { at = λ s. (f env s.calls c, record s { calls = c ∷ s.calls }, refl) }

  -- an error handler that is not needed
  pub on_error-of_ok :
      (m : Action A) (h : Error → Action A) (s : State) {a : A} {t : State}
      → m env s ≡ (ok a, t)
      → on_error m h env s ≡ (ok a, t)
  unfolding on_error
  on_error-of_ok m h s e = ap (λ (p : Outcome A × State). handle p.0 h env p.1) e

  pub Succeeds-on_error :
      (m : Action A) (h : Error → Action A) → Succeeds env m → Succeeds env (on_error m h)
  Succeeds-on_error m h k = record {
    at = λ s. let (a, t, e) = k.at s in (a, t, on_error-of_ok m h s e);
  }

  pub Succeeds-deferred :
      (d : Action (Unit {0})) (m : Action A)
      → Succeeds env d
      → Succeeds env m
      → Succeeds env (deferred d m)
  unfolding deferred
  Succeeds-deferred d m kd km = record {
    at = λ s.
        let (a, t, e) = km.at s in
        let (u, t', e') = kd.at t in
        (a, t', ap (λ (p : Outcome A × State). finally p.0 d env p.1) e ∙ rw e' refl);
  }

  pub Succeeds-if :
      (b : Bool) (m n : Action A)
      → Succeeds env m
      → Succeeds env n
      → Succeeds env (if b then m else n)
  Succeeds-if true m n h k = h
  Succeeds-if false m n h k = k

module _ {A B : Type 0} {env : Env} {Q : B → Type 0} where
  -- a call, and what follows on each of its answers
  pub Returns-call :
      (f : Env → List Call → Call → A) (c : Call) (k : A → Action B)
      → ((calls : List Call) → Returns env Q (k (f env calls c)))
      → Returns env Q (call f c >>= k)
  unfolding call ◌>>=◌
  Returns-call f c k h = record { at = λ s. (h s.calls).at (record s { calls = c ∷ s.calls }) }

  -- an answer that is no error
  pub Returns-or_throw :
      (r : Reply A) (k : A → Action B) {a : A}
      → r ≡ answer a
      → Returns env Q (k a)
      → Returns env Q (or_throw r >>= k)
  unfolding or_throw ◌>>=◌
  Returns-or_throw r k p h = rw p h

  -- a pointer that is not nil
  pub Returns-deref :
      (o : Option A) (k : A → Action B) {a : A}
      → o ≡ some a
      → Returns env Q (k a)
      → Returns env Q (deref o >>= k)
  unfolding deref ◌>>=◌
  Returns-deref o k p h = rw p h

  pub Returns-ask :
      (f : Env → A) (k : A → Action B) → Returns env Q (k (f env)) → Returns env Q (ask f >>= k)
  unfolding ask ◌>>=◌
  Returns-ask f k h = record { at = λ s. h.at s }

module _ {A B : Type 0} {env : Env} (m : Action A) (f : A → Action B) where
  pub Returns-bind :
      {P : A → Type 0} {Q : B → Type 0}
      → Returns env P m
      → ((a : A) → P a → Returns env Q (f a))
      → Returns env Q (m >>= f)
  Returns-bind h k = record {
    at = λ s.
        let (a, t, e, p) = h.at s in
        let (b, t', e', q) = (k a p).at t in (b, t', >>=-of_ok m f env s e ∙ e', q);
  }

  -- a first part that succeeds, and whose values are known
  pub Succeeds-made :
      {Q : A → Type 0}
      → Succeeds env m
      → Makes env Q m
      → ((a : A) → Q a → Succeeds env (f a))
      → Succeeds env (m >>= f)
  Succeeds-made h makes k = record {
    at = λ s.
        let (a, t, e) = h.at s in
        let (b, t', e') = (k a (makes.at s e)).at t in (b, t', >>=-of_ok m f env s e ∙ e');
  }

  -- a first part whose value is of no use
  pub Returns-skip :
      {Q : B → Type 0} → Succeeds env m → ((a : A) → Returns env Q (f a)) → Returns env Q (m >>= f)
  Returns-skip h k = record {
    at = λ s.
        let (a, t, e) = h.at s in
        let (b, t', e', r) = (k a).at t in (b, t', >>=-of_ok m f env s e ∙ e', r);
  }

  pub Succeeds-bind : Succeeds env m → ((a : A) → Succeeds env (f a)) → Succeeds env (m >>= f)
  Succeeds-bind h k = record {
    at = λ s.
        let (a, t, e) = h.at s in
        let (b, t', e') = (k a).at t in (b, t', >>=-of_ok m f env s e ∙ e');
  }

module _ {env : Env} where
  pub Succeeds-check_nil : (o : Option Error) → o ≡ none → Succeeds env (check_nil o)
  unfolding check_nil
  Succeeds-check_nil o h = record { at = λ s. (tt, s, rw h refl) }

  -- a poll whose condition is met
  pub Succeeds-poll :
      (patient : IsPatient env) (interval timeout : ℕ) (immediate : Bool) (c : Action Bool)
      → interval < timeout
      → timeout < 2 ^ 63
      → Returns env (λ b. b ≡ true) c
      → Succeeds env (poll interval timeout immediate c)
  unfolding poll
  Succeeds-poll patient interval timeout immediate c long bounded h = record {
    at = λ s.
        let (b, t, e, q) = h.at s in
        (
          tt,
          t,
          patient interval timeout immediate (c env) s t long bounded (e ∙ ap (λ x. (ok x, t)) q),
        );
  }

pub ruleset succeeds_rules = (
  Succeeds-pure, Succeeds-ask, Succeeds-call, Succeeds-on_error, Succeeds-deferred, Succeeds-if,
  Succeeds-bind,
)
