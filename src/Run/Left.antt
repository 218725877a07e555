-- ===== src/Run/Left.antt =====
-- What a run leaves in the cluster: the things that it has asked to create, and not to delete since.
use mathlib.Core.Path.{subst}
use kibertas.Prelude.{List, ◌∷◌, ◌≡◌, refl, sym, ◌≢◌}
use kibertas.Go.Errors.{Error}
use kibertas.Api.{Call}
use kibertas.Scope.{Thing, Effect, reads, creates, deletes, effect_of, Among, Own, Owned}
use kibertas.Run.World.{State, Outcome, ok, fail, panicked, exited, Env, IsLawful}
use kibertas.Run.Trace.{Since, same, more}
use kibertas.Run.Adds.{Adds, Adds-Since}
use kibertas.Run.Makes.{Makes}
use kibertas.Run.Actions.{Action, continue, ◌>>=◌, handle, on_error, finally, deferred}

-- The newest call of a list is first.
pub data Left (o : Thing) : List Call → Type 0 where
  asked : {c : Call} {calls : List Call} → effect_of c ≡ creates o → Left o (c ∷ calls)
  still :
      {c : Call} {calls : List Call} → effect_of c ≢ deletes o → Left o calls → Left o (c ∷ calls)

-- Calls that do not create a thing do not leave it.
pub Left-Since :
    {P : Call → Type 0} {o : Thing} {old new : List Call}
    → ((c : Call) → P c → effect_of c ≢ creates o)
    → Since P old new
    → Left o new
    → Left o old
Left-Since spares same h = h
Left-Since spares (more p k) (asked e) = absurd (spares _ p e)
Left-Since spares (more p k) (still n h) = Left-Since spares k h

-- Whoever creates things of a list only does not create others.
pub Owned-spares :
    (things : List Thing) (o : Thing)
    → (Among o things → ⊥)
    → (c : Call) → Owned things c
    → effect_of c ≢ creates o
Owned-spares things o other c own e = other (subst (Own things) e own)

-- Nothing is created.
abbrev pub IsIdle : Effect → Type 0
IsIdle (creates o) = ⊥
IsIdle _ = Unit

abbrev pub Idle : Call → Type 0
Idle c = IsIdle (effect_of c)

pub reads-Idle : (c : Call) → effect_of c ≡ reads → Idle c
reads-Idle c e = subst IsIdle (sym e) tt

Idle-spares : (o : Thing) (c : Call) → Idle c → effect_of c ≢ creates o
Idle-spares o c idle e = subst IsIdle e idle

-- From any state, `m` leaves nothing that was not there to be left.
pub record Clears {A : Type 0} (env : Env) (m : Action A) : Type 0 where
  pub at : (s : State) (o : Thing) → Left o (m env s).1.calls → Left o s.calls

module _ {A : Type 0} {env : Env} where
  -- an action that creates nothing
  pub Adds-Clears : {m : Action A} → IsLawful env → Adds Idle m → Clears env m
  Adds-Clears l k = record { at = λ s o. Left-Since (Idle-spares o) (Adds-Since k env l s) }

  handle-Clears :
      (r : Outcome A) (h : Error → Action A) (s : State) (o : Thing)
      → ((e : Error) → Clears env (h e))
      → Left o (handle r h env s).1.calls
      → Left o s.calls
  handle-Clears (ok a) h s o k left = left
  handle-Clears (fail e) h s o k left = (k e).at s o left
  handle-Clears panicked h s o k left = left
  handle-Clears exited h s o k left = left

  pub Clears-on_error :
      (m : Action A) (h : Error → Action A)
      → Clears env m
      → ((e : Error) → Clears env (h e))
      → Clears env (on_error m h)
  unfolding on_error
  Clears-on_error m h km kh = record {
    at = λ s o left. let (r, t) = m env s in km.at s o (handle-Clears r h t o kh left);
  }

  finally-Clears :
      (r : Outcome A) (d : Action (Unit {0})) (s : State) (o : Thing)
      → Clears env d
      → Left o (finally r d env s).1.calls
      → Left o s.calls
  finally-Clears exited d s o k left = left
  finally-Clears (ok a) d s o k left = k.at s o left
  finally-Clears (fail e) d s o k left = k.at s o left
  finally-Clears panicked d s o k left = k.at s o left

  pub Clears-deferred :
      (d : Action (Unit {0})) (m : Action A)
      → Clears env d
      → Clears env m
      → Clears env (deferred d m)
  unfolding deferred
  Clears-deferred d m kd km = record {
    at = λ s o left. let (r, t) = m env s in km.at s o (finally-Clears r d t o kd left);
  }

-- An action, and then another that depends on what it returned, of which `Q` holds.
module _ {A B : Type 0} {env : Env} {Q : A → Type 0} (m : Action A) (f : A → Action B)
    (makes : Makes env Q m) (kf : (a : A) → Q a → Clears env (f a)) where
  continue-Clears :
      (s : State) (r : Outcome A) (t : State) (o : Thing)
      → m env s ≡ (r, t)
      → Left o (continue r f env t).1.calls
      → Left o t.calls
  continue-Clears s (ok a) t o e left = (kf a (makes.at s e)).at t o left
  continue-Clears s (fail x) t o e left = left
  continue-Clears s panicked t o e left = left
  continue-Clears s exited t o e left = left

  pub Clears-made : Clears env m → Clears env (m >>= f)
  unfolding ◌>>=◌
  Clears-made km = record {
    at = λ s o left. let (r, t) = m env s in km.at s o (continue-Clears s r t o refl left);
  }

pub Clears-bind :
    {A B : Type 0} {env : Env} (m : Action A) (f : A → Action B)
    → Clears env m
    → ((a : A) → Clears env (f a))
    → Clears env (m >>= f)
Clears-bind m f km kf =
    Clears-made {Q = λ a. Unit {0}} m f (record { at = λ s h. tt }) (λ a u. kf a) km
