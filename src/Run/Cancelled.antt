-- ===== src/Run/Cancelled.antt =====
-- A context that has been cancelled, and actions that cannot succeed after that.
use kibertas.Prelude.{String, false, some, List, ◌≡◌}
use kibertas.Go.Errors.{Error}
use kibertas.Api.{Call, refused, signals, context_of}
use kibertas.Run.World.{State, ok, Env}
use kibertas.Run.Actions.{Action, ◌>>=◌, call, check_nil, issue, or_throw}
use kibertas.Run.Trace.{Since, Since-trans}
use kibertas.Run.Seen.{Anything}
use kibertas.Run.Success.{>>=-ok}
use kibertas.Run.Shows.{IsObservation, Shows}

-- From a moment of the run on, the context of the program is cancelled: a request that is made with it
-- is refused, by an error that does not say that something is there already, and so is the list of the
-- nodes.
pub record IsCancelled (env : Env) (moment : List Call) : Type 0 where
  pub refuses :
      (before : List Call) (c : Call)
      → Since Anything moment before
      → context_of c ≡ signals
      → (e : Error) × (env.issue before c ≡ some e) × (env.is_already_exists e ≡ false)
  pub lists_nothing :
      (before : List Call) (label : String)
      → Since Anything moment before
      → (e : Error) × (env.nodes before (Call.list_nodes label) ≡ refused e)

-- What began before a moment.
abbrev pub Early : List Call → List Call → List Call → Type 0
Early moment old new = ¬ Since Anything moment old

pub Early-IsObservation : (moment : List Call) → IsObservation (Early moment)
Early-IsObservation moment = record {
  before = λ since early late. early (Since-trans late since);
  after = λ since early. early;
}

-- an action that has succeeded began before the moment, if its first part did
pub Shows-Early :
    {A B : Type 0} {env : Env} {moment : List Call} (m : Action A) (f : A → Action B)
    → Shows env (Early moment) m
    → Shows env (Early moment) (m >>= f)
Shows-Early {env} m f k = record { at = λ s h. let (a, s', p, q) = >>=-ok m f env s h in k.at s p }

module _ {env : Env} {moment : List Call} (cancelled : IsCancelled env moment) where
  refused-fails : (e : Error) (s t : State) → check_nil (some e) env s ≡ (ok tt, t) → ⊥
  unfolding check_nil
  refused-fails e s t h = cc h

  -- a request with the context of the program
  pub issue-Early : (c : Call) → context_of c ≡ signals → Shows env (Early moment) (issue c)
  unfolding issue ◌>>=◌
  issue-Early c same = record {
    at = λ s h late.
        let (e, p, q) = cancelled.refuses s.calls c late same in refused-fails e _ _ (rw p at h);
  }

  pub nodes-Early :
      (label : String)
      → Shows env (Early moment) (call (λ e. e.nodes) (Call.list_nodes label) >>= or_throw)
  unfolding or_throw ◌>>=◌
  nodes-Early label = record {
    at = λ s h late. let (e, p) = cancelled.lists_nothing s.calls label late in cc (rw p at h);
  }
