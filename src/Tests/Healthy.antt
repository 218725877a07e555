-- ===== src/Tests/Healthy.antt =====
-- An environment that is healthy, and runs of the program in it.
use kibertas.Prelude.{true, ◌∷◌, [], ◌≡◌, refl, sym, ap, ◌∙◌, arith}
use kibertas.Run.{State, Outcome, ok, Env, IsLawful}
use kibertas.Run.Trace.{Since}
use kibertas.Run.Log.{log, posted_text}
use kibertas.Healthy.{IsHealthy, here, later}
use kibertas.Notify.{api_url}
use kibertas.Cli.{default_flags, all, fluent, main}
use kibertas.Cli.Outcomes.{chatwork_of}
use kibertas.Cli.Effects.{Ours}
use kibertas.Cli.Scope.{main_scope}
use kibertas.Scope.{Thing, Keeps}
use kibertas.Cli.Debug.{main_debug-Keeps}
use kibertas.Cli.Success.{main_succeeds}
use kibertas.Run.Left.{Left}
use kibertas.Cli.Cleared.{main-Left}
use kibertas.Run.Housed.{Housed}
use kibertas.Cli.Housed.{main-Housed}
use kibertas.Cli.Observed.{Evidence}
use kibertas.Cli.Evidence.{main-Evidence}
use kibertas.Cli.Sent.{texts, main_sent}
use kibertas.Run.Says.{Reports}
use kibertas.Tests.World.{calm, calm-IsLawful, polled, start}

-- every variable of the process has a value
abbrev pub named : Env
named = record calm { getenv = λ name. "x" }

pub named-IsLawful : IsLawful named
named-IsLawful = record {
  polls = calm-IsLawful.polls;
  no_errors = calm-IsLawful.no_errors;
  some_errors = calm-IsLawful.some_errors;
  intn_lt = calm-IsLawful.intn_lt;
}

named-IsHealthy : IsHealthy named
named-IsHealthy = record {
  patient = λ interval timeout immediate c s t long bounded h. ap polled h;
  tokyo = refl;
  parses_level = (4, refl);
  urls = λ url. refl;
  posts = λ calls c. ("200 OK", refl);
  issues = λ calls c. refl;
  ready = λ calls c. (1, refl);
  available = λ calls c. ("lb.example" ∷ [], refl, refl);
  lists_nodes = λ calls c. ("node-a" ∷ "node-b" ∷ [], refl);
  resolves = λ calls c. (_, refl, later here);
  responds = λ calls c. refl;
  aws_config = λ calls c. (_, refl, refl);
  latest = 100;
  clock_le = λ calls c. omega arith;
  logged = λ calls c. ("new", 200, [], refl, omega arith);
  api_key = refl;
  app_key = refl;
  measured = λ calls c. (refl, refl, ("cpu", [], refl));
}

abbrev finish : State
finish = (main all default_flags named start).1

finished : main all default_flags named start ≡ (ok tt, finish)
finished =
    let (t, e) =
      main_succeeds all default_flags named start named-IsLawful named-IsHealthy (omega arith)
        (omega arith) in
    e ∙ ap (λ x. (ok tt, x)) (sym (ap (λ (p : Outcome (Unit {0}) × State). p.1) e))

main_sent_example :
    (finish.messages ≡ []) × Reports (texts all) (log start) (posted_text finish.calls)
main_sent_example = main_sent all default_flags named start named-IsLawful refl finished

pub nothing-Left : {o : Thing} → ¬ Left o []
nothing-Left left = elim left [ ]

main-Evidence_example : Evidence named default_flags all [] finish.calls
main-Evidence_example = main-Evidence all default_flags named start named-IsLawful finished

main_scope_example :
    Since
      (Ours named (api_url (chatwork_of named)))
      []
      (main fluent default_flags named start).1.calls
main_scope_example = main_scope fluent default_flags named start named-IsLawful

main_debug-Keeps_example :
    Since Keeps [] (main all (record default_flags { debug = true }) named start).1.calls
main_debug-Keeps_example =
    main_debug-Keeps all (record default_flags { debug = true }) named start named-IsLawful refl

main-Left_example :
    ¬ Left (Thing.namespace "fluent-test") (main all default_flags named start).1.calls
main-Left_example =
    main-Left all default_flags named start (Thing.namespace "fluent-test") named-IsLawful refl
      nothing-Left

main-Housed_example : Housed [] (main all default_flags named start).1.calls
main-Housed_example = main-Housed all default_flags named start named-IsLawful
