-- ===== src/Tests/Signals.antt =====
-- A signal during a run, outside `Send` and in it.
use kibertas.Prelude.{true, [], ◌∷◌, refl}
use kibertas.Api.{Call, Request}
use kibertas.Run.Trace.{stay, say}
use kibertas.Notify.{add_message, send_request}
use kibertas.Cli.Signals.{
  Process, Listener, elsewhere, listening, signal_message, listener_step, Becomes, begin, program,
  reads, posts, resets, goroutine,
}
use kibertas.Tests.World.{calm, start, chatwork}

-- the check starts, the signal arrives, and the check goes on before the context is cancelled
abbrev interrupted : Process
interrupted = record {
  run = record {
    messages = "Ingress check start\n" ∷ signal_message ∷ "Skip Dns Check\n" ∷ [];
    calls = [];
  };
  sender = elsewhere;
  listener = Listener.returned;
  is_cancelled = true;
}

abbrev Any : Call → Type 0
Any c = Unit

abbrev request : Request
request = send_request chatwork ("Ingress check start\n" ∷ [])

-- the message comes while the request of `Send` is answered, and the `Reset` loses it
abbrev silenced : Process
silenced = record {
  run = record { messages = []; calls = Call.post_message request ∷ [] };
  sender = elsewhere;
  listener = Listener.returned;
  is_cancelled = true;
}

message_lost : Becomes calm Any (listening start) silenced
unfolding listener_step add_message send_request
message_lost = goroutine (
    resets refl (
      goroutine (
        goroutine (
          posts {r = request} refl tt refl
            (reads refl (program refl (say "Ingress check start\n" stay) begin))))))
