-- ===== src/Steps/Shows.antt =====
-- What the success of the shared steps shows.
use kibertas.Prelude.{String, List}
use kibertas.Api.{Call}
use kibertas.Run.{Env, IsLawful, Action, deferred}
use kibertas.Run.Adds.{Adds}
use kibertas.Run.Seen.{Anything}
use kibertas.Run.Shows.{IsObservation, Shows, Shows-deferred}
use kibertas.Notify.{Chatwork, send}
use kibertas.Notify.Effects.{Adds-send}
use kibertas.Steps.{report_nodes, or_report, report_clean_up}
use kibertas.Steps.Effects.{report_nodes-ok, or_report-ok, Adds-report_clean_up}

module _ {env : Env} {R : List Call → List Call → Type 0} where
  pub Shows-or_report :
      (front back : String) (m : Action (Unit {0}))
      → Shows env R m
      → Shows env R (or_report front back m)
  Shows-or_report front back m k = record { at = λ s h. k.at s (or_report-ok front back m env s h) }

  pub Shows-report_nodes : (m : Action (List String)) → Shows env R m → Shows env R (report_nodes m)
  Shows-report_nodes m k = record { at = λ s h. k.at s (report_nodes-ok m env s h) }

  -- behind a deferred clean-up
  pub Shows-cleaned :
      (l : IsLawful env) (o : IsObservation R) (clean_up m : Action (Unit {0}))
      → Adds Anything clean_up
      → Shows env R m
      → Shows env R (deferred (report_clean_up clean_up) m)
  Shows-cleaned l o clean_up m adds k =
      Shows-deferred l o _ m (Adds-report_clean_up clean_up adds) k

  -- behind a deferred message
  pub Shows-sent :
      (l : IsLawful env) (o : IsObservation R) (c : Chatwork) (m : Action (Unit {0}))
      → Shows env R m
      → Shows env R (deferred (send c) m)
  Shows-sent l o c m k = Shows-deferred l o (send c) m (Adds-send c (λ r same. tt)) k
