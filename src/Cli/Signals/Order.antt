-- ===== src/Cli/Signals/Order.antt =====
-- Whatever the order of the steps, the context is cancelled only after the message, and that is not lost
-- unless it comes while the program is in `Send`.
use kibertas.Prelude.{false, ◌≡◌, ◌≢◌, ◌⊎◌}
use kibertas.Api.{Call}
use kibertas.Run.{Env}
use kibertas.Cli.Signals.{
  Listener, waiting, received, told, returned, elsewhere, Process, signal_message, listener_step,
  Becomes,
}
use kibertas.Cli.Signals.Kept.{IsKept}

-- There was a moment at which the goroutine added its message; and either the program was in `Send` then,
-- or the message has been posted or is underway.
record Told (env : Env) (P : Call → Type 0) (p q : Process) : Type 0 where
  moment : Process
  hearing : moment.listener ≡ received
  before : Becomes env P p moment
  after : Becomes env P (listener_step env received moment) q
  outcome : (moment.sender ≢ elsewhere) ⊎ IsKept signal_message q.sender q.run

-- What holds of a process, by where its goroutine is.
abbrev Said : Env → (Call → Type 0) → Process → Process → Listener → Type 0
Said env P p q waiting = q.is_cancelled ≡ false
Said env P p q received = q.is_cancelled ≡ false
Said env P p q told = (q.is_cancelled ≡ false) × Told env P p q
Said env P p q returned = Told env P p q
