-- ===== src/Run/Actions.antt =====
-- Actions: what a Go function does to the state, and how it ends.
use kibertas.Prelude.{ℕ, Bool, Option, none, some, List, ◌∷◌}
use kibertas.Go.Errors.{Error}
use kibertas.Api.{Call, Reply, answer, refused}
use kibertas.Run.World.{State, Outcome, ok, fail, panicked, exited, Env}

abbrev pub Action : Type 0 → Type 0
Action A = Env → State → Outcome A × State

module _ {A : Type 0} where
  unfoldable pub pure : A → Action A
  pure a env s = (ok a, s)

  -- `return err`
  unfoldable pub throw : Error → Action A
  throw e env s = (fail e, s)

  -- a nil pointer is followed
  unfoldable pub panic : Action A
  panic env s = (panicked, s)

  -- `os.Exit`
  unfoldable pub exit : Action A
  exit env s = (exited, s)

  -- what an error handler makes of an outcome
  abbrev pub handle : Outcome A → (Error → Action A) → Action A
  handle (ok a) h env s = (ok a, s)
  handle (fail e) h env s = h e env s
  handle panicked h env s = (panicked, s)
  handle exited h env s = (exited, s)

  -- `if err := m; err != nil { … }`
  unfoldable pub on_error : Action A → (Error → Action A) → Action A
  on_error m h env s = let (r, s') = m env s in handle r h env s'

  -- What a deferred function adds to how its function ends: a panic or an exit of its own, or
  -- nothing.
  abbrev pub and_then : Outcome A → Outcome (Unit {0}) → Outcome A
  and_then r (ok _) = r
  and_then r (fail _) = r
  and_then r panicked = panicked
  and_then r exited = exited

  abbrev pub finally : Outcome A → Action (Unit {0}) → Action A
  finally exited d env s = (exited, s)
  finally (ok a) d env s = let (r, s') = d env s in (and_then (ok a) r, s')
  finally (fail e) d env s = let (r, s') = d env s in (and_then (fail e) r, s')
  finally panicked d env s = let (r, s') = d env s in (and_then panicked r, s')

  -- `defer d()`, and then the rest of the function: `d` runs when that returns or panics.
  unfoldable pub deferred : Action (Unit {0}) → Action A → Action A
  deferred d m env s = let (r, s') = m env s in finally r d env s'

  -- a value of the environment
  unfoldable pub ask : (Env → A) → Action A
  ask f env s = (ok (f env), s)

  -- a call and its answer, which may depend on the calls so far
  unfoldable pub call : (Env → List Call → Call → A) → Call → Action A
  call f c env s = (ok (f env s.calls c), record s { calls = c ∷ s.calls })

  -- an answer that may be an error
  unfoldable pub or_throw : Reply A → Action A
  unfolding pure throw
  or_throw (answer a) = pure a
  or_throw (refused e) = throw e

  -- a value behind a pointer
  unfoldable pub deref : Option A → Action A
  unfolding pure panic
  deref none = panic
  deref (some a) = pure a

unfoldable pub check_nil : Option Error → Action (Unit {0})
unfolding pure throw
check_nil none = pure tt
check_nil (some e) = throw e

module _ {A B : Type 0} where
  abbrev pub continue : Outcome A → (A → Action B) → Action B
  continue (ok a) f env s = f a env s
  continue (fail e) f env s = (fail e, s)
  continue panicked f env s = (panicked, s)
  continue exited f env s = (exited, s)

  infixl 5 ◌>>=◌ ◌>>◌
  -- opening this opens the actions above too
  unfoldable pub ◌>>=◌ : Action A → (A → Action B) → Action B
  unfolding pure throw panic exit on_error deferred ask call or_throw deref check_nil
  ◌>>=◌ m f env s = let (r, s') = m env s in continue r f env s'

  abbrev pub ◌>>◌ : Action A → Action B → Action B
  m >> k = m >>= λ _. k

-- A call whose error is returned.
unfoldable pub issue : Call → Action (Unit {0})
unfolding ◌>>=◌
issue c = do e ← call (λ env. env.issue) c; check_nil e

unfoldable pub poll : ℕ → ℕ → Bool → Action Bool → Action (Unit {0})
poll interval timeout immediate c env s = env.poll_until interval timeout immediate (c env) s
