-- ===== src/DatadogAgent/Cancelled.antt =====
-- A datadog-agent check that begins after the context of the program is cancelled cannot succeed.
use kibertas.Prelude.{List, refl}
use kibertas.Api.{Call}
use kibertas.Run.{Env, IsLawful}
use kibertas.Run.Shows.{Shows, Shows-rest}
use kibertas.Run.Cancelled.{IsCancelled, Early, Early-IsObservation, Shows-Early, issue-Early}
use kibertas.Util.{sleep_context}
use kibertas.Notify.Effects.{Adds-add_message}
use kibertas.Steps.{or_report}
use kibertas.Steps.Shows.{Shows-or_report, Shows-sent}
use kibertas.DatadogAgent.Check.{DatadogAgent, check_metrics, run_checks, check}

module _ {env : Env} {moment : List Call} (d : DatadogAgent) (l : IsLawful env)
    (cancelled : IsCancelled env moment) where
  check_metrics-Early : Shows env (Early moment) (check_metrics d)
  unfolding check_metrics sleep_context
  check_metrics-Early =
      Shows-rest l (Early-IsObservation moment) _ _ (Adds-add_message _)
        (λ u. Shows-Early _ _ (issue-Early cancelled _ refl))

  pub check-Early : Shows env (Early moment) (check d)
  unfolding check run_checks or_report
  check-Early =
      let o = Early-IsObservation moment in
      Shows-sent l o _ _ (
        Shows-rest l o _ _ (Adds-add_message _) (λ u.
          Shows-Early _ _ (Shows-or_report "checkMetrics error: " "\n" _ check_metrics-Early)))
