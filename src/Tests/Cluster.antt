-- ===== src/Tests/Cluster.antt =====
-- Clusters: one whose program has been cancelled, what a run makes of it, and of another one.
use kibertas.Prelude.{
  ◌≤◌, String, false, Option, none, some, [], ◌≡◌, ◌↔◌, refl, inl, inr, ap, arith,
}
use kibertas.Go.Errors.{Error, canceled}
use kibertas.Api.{Context, signals, background, context_of, refused}
use kibertas.Scope.{Thing, effect_of}
use kibertas.Run.Trace.{Since}
use kibertas.Cli.Names.{ShowsDates, Changes, main_names}
use kibertas.Run.{State, ok, Env, IsLawful}
use kibertas.Run.Cluster.{Exists, IsObedient}
use kibertas.Run.Cancelled.{IsCancelled}
use kibertas.Util.Random.{size}
use kibertas.Util.Texts.{size-append}
use kibertas.Cmd.{test_namespace}
use kibertas.Cmd.Effects.{IsTestNamespace, IsOurs}
use kibertas.Cli.{all, ingress, default_flags, main}
use kibertas.Cli.Cluster.{main_cluster, main_elsewhere}
use kibertas.Cli.Cancelled.{main_cancelled}
use kibertas.Tests.World.{start}
use kibertas.Tests.Healthy.{named, named-IsLawful, nothing-Left}

-- a request whose context is cancelled
abbrev by_context : Context → Option Error
by_context signals = some canceled
by_context background = none

-- The context of the program is cancelled, and the cluster is in order.
abbrev interrupted : Env
interrupted = record named {
  issue = λ calls c. by_context (context_of c);
  nodes = λ calls c. refused canceled;
  is_already_exists = λ e. false;
}

interrupted-IsLawful : IsLawful interrupted
interrupted-IsLawful = record {
  polls = named-IsLawful.polls;
  no_errors = named-IsLawful.no_errors;
  some_errors = named-IsLawful.some_errors;
  intn_lt = named-IsLawful.intn_lt;
}

interrupted-IsObedient : IsObedient interrupted
interrupted-IsObedient = record { deletes_existing = λ o before c e same h. ap by_context same }

interrupted-IsCancelled : IsCancelled interrupted []
interrupted-IsCancelled = record {
  refuses = λ before c late same. (canceled, ap by_context same, refl);
  lists_nothing = λ before label late. (canceled, refl);
}

main_cluster_example :
    ¬ Exists interrupted (Thing.namespace "db") (main all default_flags interrupted start).1.calls
main_cluster_example =
    main_cluster all default_flags interrupted start (Thing.namespace "db") interrupted-IsLawful
      interrupted-IsObedient refl nothing-Left

abbrev stopped : State
stopped = (main ingress default_flags interrupted start).1

main_cancelled_example : ¬ (main ingress default_flags interrupted start ≡ (ok tt, stopped))
main_cancelled_example =
    main_cancelled ingress default_flags interrupted start interrupted-IsLawful
      interrupted-IsCancelled

-- the name of a namespace for a test is longer than five characters
long : {ns : String} → IsTestNamespace named ns → 5 ≤ size ns
unfolding test_namespace
long h = rw h.named (simp size-append (omega (arith, h.five)))

db_elsewhere : ¬ IsOurs named "db"
unfolding size
db_elsewhere (inl h) = omega (arith, long h)
db_elsewhere (inr e) = cc (ap size e)

main_elsewhere_example :
    Exists named (Thing.namespace "db") []
    ↔ Exists named (Thing.namespace "db") (main all default_flags named start).1.calls
main_elsewhere_example =
    main_elsewhere all default_flags named start (Thing.namespace "db") named-IsLawful db_elsewhere

named-ShowsDates : ShowsDates named
named-ShowsDates = record {
  date = λ calls. record { year_lt = omega arith; month_lt = omega arith; day_lt = omega arith };
}

main_names_example :
    Since (λ c. Changes named (effect_of c)) [] (main all default_flags named start).1.calls
main_names_example = main_names all default_flags named start named-IsLawful named-ShowsDates
