-- ===== src/Run/Success.antt =====
-- What follows when an action has succeeded.
use kibertas.Prelude.{String, ℕ, ap, ◌∙◌, Bool, true, ◌≡◌, refl, ◌⊎◌, inl, inr}
use kibertas.Go.Errors.{Error, wrapped}
use kibertas.Api.{Call}
use kibertas.Run.Adds.{Adds, Adds-from}
use kibertas.Run.Trace.{Since, same, Since-trans}
use kibertas.Run.World.{
  State, Outcome, ok, fail, panicked, exited, Env, Ended, Polls, expired, satisfied,
  refused as failed, crashed, stopped, again, IsLawful,
}
use kibertas.Run.Actions.{
  Action, throw, on_error, handle, finally, and_then, deferred, continue, ◌>>=◌, poll,
}

module _ {A B : Type 0} where
  continue_ok :
      (p : Outcome A × State) (f : A → Action B) (env : Env) {b : B} {t : State}
      → continue p.0 f env p.1 ≡ (ok b, t)
      → (a : A) × (s : State) × (p ≡ (ok a, s)) × (f a env s ≡ (ok b, t))
  continue_ok (ok a, s) f env h = (a, s, refl, h)
  continue_ok (fail e, s) f env h = cc
  continue_ok (panicked, s) f env h = cc
  continue_ok (exited, s) f env h = cc

  -- a sequence goes on from what its first part leaves
  pub >>=-of_ok :
      (m : Action A) (f : A → Action B) (env : Env) (s : State) {a : A} {s' : State}
      → m env s ≡ (ok a, s')
      → (m >>= f) env s ≡ f a env s'
  unfolding ◌>>=◌
  >>=-of_ok m f env s h = ap (λ (p : Outcome A × State). continue p.0 f env p.1) h

  -- both parts of a sequence have succeeded
  pub >>=-ok :
      (m : Action A) (f : A → Action B) (env : Env) (s : State) {b : B} {t : State}
      → (m >>= f) env s ≡ (ok b, t)
      → (a : A) × (s' : State) × (m env s ≡ (ok a, s')) × (f a env s' ≡ (ok b, t))
  unfolding ◌>>=◌
  >>=-ok m f env s h = continue_ok (m env s) f env h

module _ {A : Type 0} where
  handle_ok :
      (p : Outcome A × State) (h : Error → Action A) (env : Env) {a : A} {t : State}
      → handle p.0 h env p.1 ≡ (ok a, t)
      → (p ≡ (ok a, t)) ⊎ ((e : Error) × (s : State) × (p ≡ (fail e, s)) × (h e env s ≡ (ok a, t)))
  handle_ok (ok a, s) h env k = inl k
  handle_ok (fail e, s) h env k = inr (e, s, refl, k)
  handle_ok (panicked, s) h env k = cc
  handle_ok (exited, s) h env k = cc

  pub on_error-ok :
      (m : Action A) (h : Error → Action A) (env : Env) (s : State) {a : A} {t : State}
      → on_error m h env s ≡ (ok a, t)
      → (m env s ≡ (ok a, t))
        ⊎ ((e : Error) × (s' : State) × (m env s ≡ (fail e, s')) × (h e env s' ≡ (ok a, t)))
  unfolding on_error
  on_error-ok m h env s k = handle_ok (m env s) h env k

  -- an error that is passed on, in whatever wrapping, was not there
  pub on_error-throw-ok :
      (m : Action A) (g : Error → Error) (env : Env) (s : State) {a : A} {t : State}
      → on_error m (λ e. throw (g e)) env s ≡ (ok a, t)
      → m env s ≡ (ok a, t)
  unfolding throw
  on_error-throw-ok m g env s k = elim (on_error-ok m (λ e. throw (g e)) env s k) [
    | inl p ↦ p
    | inr (e, s', p, q) ↦ cc
  ]

  and_then_ok : (r : Outcome A) (x : Outcome (Unit {0})) {a : A} → and_then r x ≡ ok a → r ≡ ok a
  and_then_ok r (ok u) h = h
  and_then_ok r (fail e) h = h
  and_then_ok r panicked h = cc
  and_then_ok r exited h = cc

  finally_ok :
      (p : Outcome A × State) (d : Action (Unit {0})) (env : Env) {a : A} {t : State}
      → finally p.0 d env p.1 ≡ (ok a, t)
      → (s : State) × (p ≡ (ok a, s)) × ((d env s).1 ≡ t)
  finally_ok (ok b, s) d env h = (
    s,
    ap (λ (r : Outcome A). (r, s))
        (and_then_ok (ok b) (d env s).0 (ap (λ (p : Outcome A × State). p.0) h)),
    ap (λ (p : Outcome A × State). p.1) h,
  )
  finally_ok (fail e, s) d env h =
      cc (and_then_ok (fail e) (d env s).0 (ap (λ (p : Outcome A × State). p.0) h))
  finally_ok (panicked, s) d env h =
      cc (and_then_ok panicked (d env s).0 (ap (λ (p : Outcome A × State). p.0) h))
  finally_ok (exited, s) d env h = cc

  -- a function with a deferred call has succeeded
  pub deferred-ok :
      (d : Action (Unit {0})) (m : Action A) (env : Env) (s : State) {a : A} {t : State}
      → deferred d m env s ≡ (ok a, t)
      → (s' : State) × (m env s ≡ (ok a, s')) × ((d env s').1 ≡ t)
  unfolding deferred
  deferred-ok d m env s h = finally_ok (m env s) d env h

module _ {P : Call → Type 0} (c : Action Bool) (k : Adds P c) (env : Env) (l : IsLawful env) where
  Polls-ok :
      {first : Bool} {s : State} {r : Ended}
      → Polls (c env) first s r
      → r.0 ≡ ok tt
      → (s' : State) × Since P s.calls s'.calls × (c env s' ≡ (ok true, r.1))
  Polls-ok (expired e) h = cc
  Polls-ok (satisfied {s = s} e) h = (s, same, e)
  Polls-ok (failed e) h = cc
  Polls-ok (crashed e) h = cc
  Polls-ok (stopped e) h = cc
  Polls-ok (again e p) h =
      let (s', since, q) = Polls-ok p h in (s', Since-trans (Adds-from k env l e) since, q)

  -- A poll that has succeeded ended with a run of its condition that said true.
  pub poll-ok :
      (interval timeout : ℕ) (immediate : Bool) (s : State) {t : State}
      → poll interval timeout immediate c env s ≡ (ok tt, t)
      → (s' : State) × Since P s.calls s'.calls × (c env s' ≡ (ok true, t))
  unfolding poll
  poll-ok interval timeout immediate s h =
      let (s', since, e) =
        Polls-ok (l.polls interval timeout immediate (c env) s) (ap (λ (p : Ended). p.0) h) in
      (s', since, e ∙ ap (λ (p : Ended). (ok true, p.1)) h)

  -- The same of a poll whose error is wrapped and returned.
  pub poll-throw-ok :
      (interval timeout : ℕ) (immediate : Bool) (front : String) (s : State) {t : State}
      → on_error (poll interval timeout immediate c) (λ e. throw (wrapped front e)) env s
        ≡ (ok tt, t)
      → (s' : State) × Since P s.calls s'.calls × (c env s' ≡ (ok true, t))
  poll-throw-ok interval timeout immediate front s h =
      poll-ok interval timeout immediate s
        (on_error-throw-ok (poll interval timeout immediate c) (wrapped front) env s h)
