-- ===== src/Cli/Signals.antt =====
-- main.go: the goroutine of `newSignalContext`, beside the run of the program.
pub mod Kept
pub mod Order
use kibertas.Prelude.{String, Bool, false, true, none, some, [], ◌∷◌, ◌≡◌, concat}
use kibertas.Go.Errors.{Error}
use kibertas.Scope.{effect_of, posted}
use kibertas.Api.{Call, Request}
use kibertas.Run.{State, Outcome, Env}
use kibertas.Run.Trace.{Runs}
use kibertas.Notify.{add_message}

-- Where the goroutine is: it waits for a signal, has received one, has added its message, or has
-- cancelled the context and returned.
pub data Listener : Type 0 where
  waiting received told returned : Listener

-- Where the program is in `Send`: elsewhere; or it has read the messages for the body of its request; or
-- it has made the request and waits, up to the deferred `Reset`.
pub data Sender : Type 0 where
  elsewhere : Sender
  has_read : String → Sender
  has_posted : Sender

-- The program and its goroutine, which share the messages; and whether the context is cancelled.
pub record Process : Type 0 where
  pub run : State
  pub sender : Sender
  pub listener : Listener
  pub is_cancelled : Bool

-- As `newSignalContext` starts it.
abbrev pub listening : State → Process
listening s = record { run = s; sender = elsewhere; listener = waiting; is_cancelled = false }

abbrev pub signal_message : String
signal_message = "Received Ctrl+C or SIGERM. Exiting...\n"

-- One step of the goroutine; waiting ends with the first signal.
unfoldable pub listener_step : Env → Listener → Process → Process
unfolding add_message
listener_step env waiting p = record p { listener = received }
listener_step env received p = record p {
  run = (add_message signal_message env p.run).1;
  listener = told;
}
listener_step env told p = record p { listener = returned; is_cancelled = true }
listener_step env returned p = p

-- Steps of the program outside `Send`: messages that it gathers, and calls that post nothing.
abbrev pub Quiet : (Call → Type 0) → Call → Type 0
Quiet P c = P c × (posted (effect_of c) ≡ none)

-- The processes that one may become: steps of the program, whose calls meet `P`, and of the goroutine,
-- in any order. The goroutine may act between any two of the steps of `Send`: the messages are read,
-- posted with the form that was made of them, and emptied when `Send` returns. A request that cannot be
-- made, for a URL that is not well-formed, is followed by the `Reset` too.
pub data Becomes (env : Env) (P : Call → Type 0) (p : Process) : Process → Type 0 where
  begin : Becomes env P p p
  program :
      {q : Process} {t : State}
      → q.sender ≡ elsewhere
      → Runs env (Quiet P) q.run t
      → Becomes env P p q
      → Becomes env P p (record q { run = t })
  reads :
      {q : Process}
      → q.sender ≡ elsewhere
      → Becomes env P p q
      → Becomes env P p (record q { sender = has_read (concat q.run.messages) })
  posts :
      {q : Process} {body : String} {r : Request}
      → q.sender ≡ has_read body
      → P (Call.post_message r)
      → r.form ≡ ("body", body) ∷ []
      → Becomes env P p q
      → Becomes env P p (record q {
        run = record q.run { calls = Call.post_message r ∷ q.run.calls };
        sender = has_posted;
      })
  breaks :
      {q : Process} {body : String} {r : Request} {e : Error}
      → q.sender ≡ has_read body
      → P (Call.post_message r)
      → env.bad_url r.url ≡ some e
      → Becomes env P p q
      → Becomes env P p (record q { sender = has_posted })
  resets :
      {q : Process}
      → q.sender ≡ has_posted
      → Becomes env P p q
      → Becomes env P p (record q { run = record q.run { messages = [] }; sender = elsewhere })
  goroutine : {q : Process} → Becomes env P p q → Becomes env P p (listener_step env q.listener q)
