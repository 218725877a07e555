-- ===== src/Run/Makes.antt =====
-- What holds of the values that an action returns.
use mathlib.Core.Path.{subst}
use kibertas.Prelude.{◌≡◌, refl}
use kibertas.Go.Errors.{Error}
use kibertas.Api.{Call}
use kibertas.Run.World.{State, Outcome, ok, fail, panicked, exited, Env}
use kibertas.Run.Trace.{Runs, Runs-trans}
use kibertas.Run.Actions.{Action, continue, handle, on_error, pure, ask, ◌>>=◌}
use kibertas.Run.Success.{>>=-ok}

pub record Makes {A : Type 0} (env : Env) (Q : A → Type 0) (m : Action A) : Type 0 where
  pub at : (s : State) {a : A} {t : State} → m env s ≡ (ok a, t) → Q a

pub Makes-both :
    {A : Type 0} {env : Env} {P Q : A → Type 0} {m : Action A}
    → Makes env P m
    → Makes env Q m
    → Makes env (λ a. P a × Q a) m
Makes-both p q = record { at = λ s h. (p.at s h, q.at s h) }

pub ok_value :
    {A : Type 0} {a b : A} {s t : State} → ◌≡◌ {A = Outcome A × State} (ok a, s) (ok b, t) → a ≡ b
ok_value h = cc h

module _ {A B : Type 0} {env : Env} {Q : B → Type 0} (m : Action A) (f : A → Action B) where
  -- what a step returns is of use
  pub Makes-step :
      ((s : State) (a : A) (t : State) → m env s ≡ (ok a, t) → Makes env Q (f a))
      → Makes env Q (m >>= f)
  Makes-step k = record {
    at = λ s h. let (a, s', p, q) = >>=-ok m f env s h in (k s a s' p).at s' q;
  }

  -- all that is known of it is
  pub Makes-made :
      {P : A → Type 0} → Makes env P m → ((a : A) → P a → Makes env Q (f a)) → Makes env Q (m >>= f)
  Makes-made h k = Makes-step (λ s a t e. k a (h.at s e))

  -- it is of none
  pub Makes-skip : ((a : A) → Makes env Q (f a)) → Makes env Q (m >>= f)
  Makes-skip k = Makes-step (λ s a t e. k a)

pub Makes-ask :
    {A B : Type 0} {env : Env} {Q : B → Type 0} (g : Env → A) (f : A → Action B)
    → Makes env Q (f (g env))
    → Makes env Q (ask g >>= f)
unfolding ask
Makes-ask {env} {Q} g f k =
    Makes-step (ask g) f (λ s a t e. subst (λ x. Makes env Q (f x)) (ok_value e) k)

pub Makes-pure : {B : Type 0} {env : Env} {Q : B → Type 0} (b : B) → Q b → Makes env Q (pure b)
unfolding pure
Makes-pure {Q} b q = record { at = λ s e. subst Q (ok_value e) q }

-- From any state, `m` runs by steps whose calls meet `P`.
abbrev pub Walks : {A : Type 0} → Env → (Call → Type 0) → Action A → Type 0
Walks env P m = (s : State) → Runs env P s (m env s).1

-- The steps of a run through `m`, and on with what `m` returned, of which `Q` holds.
module _ {A B : Type 0} {P : Call → Type 0} {env : Env} {Q : A → Type 0} (m : Action A)
    (f : A → Action B) (makes : Makes env Q m) where
  continue-Runs :
      (s : State) (r : Outcome A) (t : State)
      → ((a : A) → Q a → Walks env P (f a))
      → m env s ≡ (r, t)
      → Runs env P s t
      → Runs env P s (continue r f env t).1
  continue-Runs s (ok a) t k e h = Runs-trans h (k a (makes.at s e) t)
  continue-Runs s (fail e') t k e h = h
  continue-Runs s panicked t k e h = h
  continue-Runs s exited t k e h = h

  pub Walks-made : Walks env P m → ((a : A) → Q a → Walks env P (f a)) → Walks env P (m >>= f)
  unfolding ◌>>=◌
  Walks-made h k s = continue-Runs s (m env s).0 (m env s).1 k refl (h s)

-- the steps of a run through `m` and through the handler of its errors
module _ {A : Type 0} {P : Call → Type 0} {env : Env} where
  handle-Runs :
      (r : Outcome A) (h : Error → Action A) (t : State)
      → ((e : Error) → Walks env P (h e))
      → Runs env P t (handle r h env t).1
  handle-Runs (ok a) h t k = Runs.stay
  handle-Runs (fail e) h t k = k e t
  handle-Runs panicked h t k = Runs.stay
  handle-Runs exited h t k = Runs.stay

  pub Walks-on_error :
      (m : Action A) (h : Error → Action A)
      → Walks env P m
      → ((e : Error) → Walks env P (h e))
      → Walks env P (on_error m h)
  unfolding on_error
  Walks-on_error m h km kh s = let (r, t) = m env s in Runs-trans (km s) (handle-Runs r h t kh)
