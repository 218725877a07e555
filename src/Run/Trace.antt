-- ===== src/Run/Trace.antt =====
-- What a run does, as a sequence of steps: it gathers a message, makes a call, or sends the messages.
use kibertas.Prelude.{String, none, some, List, [], ◌∷◌, ◌++◌, ◌≡◌, concat}
use kibertas.Go.Errors.{Error}
use kibertas.Api.{Call, Request}
use kibertas.Scope.{effect_of, posted}
use kibertas.Run.World.{State, Env}

-- The steps from one state of a run to another. Each call that is made, or fails for a URL that is not
-- well-formed, meets `P`. Sending posts all the messages that have gathered, or loses them for such a
-- URL, and empties them.
pub data Runs (env : Env) (P : Call → Type 0) (s : State) : State → Type 0 where
  stay : Runs env P s s
  say :
      {t : State} (m : String)
      → Runs env P s t
      → Runs env P s (record t { messages = t.messages ++ m ∷ [] })
  make :
      {t : State} {c : Call}
      → P c
      → posted (effect_of c) ≡ none
      → Runs env P s t
      → Runs env P s (record t { calls = c ∷ t.calls })
  send :
      {t : State} {r : Request}
      → P (Call.post_message r)
      → r.form ≡ ("body", concat t.messages) ∷ []
      → Runs env P s t
      → Runs env P s (record { messages = []; calls = Call.post_message r ∷ t.calls })
  lose :
      {t : State} {r : Request} {e : Error}
      → P (Call.post_message r)
      → env.bad_url r.url ≡ some e
      → Runs env P s t
      → Runs env P s (record t { messages = [] })

module _ {env : Env} {P : Call → Type 0} where
  pub Runs-trans : {a b c : State} → Runs env P a b → Runs env P b c → Runs env P a c
  Runs-trans h stay = h
  Runs-trans h (say m k) = say m (Runs-trans h k)
  Runs-trans h (make p q k) = make p q (Runs-trans h k)
  Runs-trans h (send p q k) = send p q (Runs-trans h k)
  Runs-trans h (lose p q k) = lose p q (Runs-trans h k)

  -- The steps of a run meet whatever follows from `P`.
  pub Runs-map :
      {Q : Call → Type 0}
      → ((c : Call) → P c → Q c)
      → {s t : State} → Runs env P s t
      → Runs env Q s t
  Runs-map f stay = stay
  Runs-map f (say m k) = say m (Runs-map f k)
  Runs-map f (make p q k) = make (f _ p) q (Runs-map f k)
  Runs-map f (send p q k) = send (f _ p) q (Runs-map f k)
  Runs-map f (lose p q k) = lose (f _ p) q (Runs-map f k)

-- `new` is `old` and calls after it, each of which meets `P`. The newest call is first.
pub data Since (P : Call → Type 0) (old : List Call) : List Call → Type 0 where
  same : Since P old old
  more : {c : Call} {new : List Call} → P c → Since P old new → Since P old (c ∷ new)

module _ {P : Call → Type 0} where
  pub Since-trans : {a b c : List Call} → Since P a b → Since P b c → Since P a c
  Since-trans h same = h
  Since-trans h (more p k) = more p (Since-trans h k)

  pub Since-map :
      {Q : Call → Type 0}
      → ((c : Call) → P c → Q c)
      → {old new : List Call} → Since P old new
      → Since Q old new
  Since-map f same = same
  Since-map f (more p k) = more (f _ p) (Since-map f k)

  -- the calls of a run
  pub Runs-Since : {env : Env} {s t : State} → Runs env P s t → Since P s.calls t.calls
  Runs-Since stay = same
  Runs-Since (say m k) = Runs-Since k
  Runs-Since (make p q k) = more p (Runs-Since k)
  Runs-Since (send p q k) = more p (Runs-Since k)
  Runs-Since (lose p q k) = Runs-Since k
