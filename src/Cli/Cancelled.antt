-- ===== src/Cli/Cancelled.antt =====
-- A run that begins after the context of the program is cancelled.
use kibertas.Prelude.{List, ◌≡◌}
use kibertas.Api.{Call}
use kibertas.Run.{State, ok, Env, IsLawful}
use kibertas.Run.Trace.{same}
use kibertas.Run.Shows.{Shows, Shows-rest}
use kibertas.Run.Cancelled.{IsCancelled, Early, Early-IsObservation, Shows-Early}
use kibertas.Cmd.{Checker}
use kibertas.Ingress.New.{Adds-new_ingress}
use kibertas.Ingress.Cancelled as Ingress
use kibertas.Fluent.New.{Adds-new_fluent}
use kibertas.Fluent.Cancelled as Fluent
use kibertas.ClusterAutoscaler.New.{Adds-new_cluster_autoscaler}
use kibertas.ClusterAutoscaler.Cancelled as ClusterAutoscaler
use kibertas.CertManager.New.{Adds-new_cert_manager}
use kibertas.CertManager.Cancelled as CertManager
use kibertas.DatadogAgent.New.{Adds-new_datadog_agent}
use kibertas.DatadogAgent.Cancelled as DatadogAgent
use kibertas.Cli.{
  Command, cluster_autoscaler, ingress, fluent, datadog_agent, cert_manager, all, Flags,
  run_command, run_cluster_autoscaler, run_ingress, run_fluent, run_datadog_agent, run_cert_manager,
  run_all, main,
}
use kibertas.Cli.Commands.{main_checker, main-ok}

module _ {env : Env} {moment : List Call} (l : IsLawful env) (cancelled : IsCancelled env moment)
    (checker : Checker) where
  run_cluster_autoscaler-Early : Shows env (Early moment) (run_cluster_autoscaler checker)
  unfolding run_cluster_autoscaler
  run_cluster_autoscaler-Early =
      Shows-rest l (Early-IsObservation moment) _ _
        (Adds-new_cluster_autoscaler (λ c same. tt) checker)
        (λ c. ClusterAutoscaler.check-Early c l cancelled)

  run_command-Early :
      (command : Command) (flags : Flags)
      → Shows env (Early moment) (run_command command flags checker)
  unfolding run_command run_ingress run_fluent run_datadog_agent run_cert_manager run_all
  run_command-Early cluster_autoscaler flags = run_cluster_autoscaler-Early
  run_command-Early ingress flags =
      Shows-rest l (Early-IsObservation moment) _ _
        (Adds-new_ingress (λ c same. tt) checker flags.no_dns_check)
        (λ i. Ingress.check-Early i l cancelled)
  run_command-Early fluent flags =
      Shows-rest l (Early-IsObservation moment) _ _ (Adds-new_fluent (λ c same. tt) checker)
        (λ f. Fluent.check-Early f l cancelled)
  run_command-Early datadog_agent flags =
      Shows-rest l (Early-IsObservation moment) _ _ (Adds-new_datadog_agent tt checker)
        (λ d. DatadogAgent.check-Early d l cancelled)
  run_command-Early cert_manager flags =
      Shows-rest l (Early-IsObservation moment) _ _ (Adds-new_cert_manager (λ c same. tt) checker)
        (λ c. CertManager.check-Early c l cancelled)
  run_command-Early all flags = Shows-Early _ _ run_cluster_autoscaler-Early

-- In a lawful environment, if the context of the program is cancelled before the run, so that
-- every request with this context is refused, by an error that is not AlreadyExists, and so is the
-- list of the nodes, no command ends without an error.
pub main_cancelled :
    (command : Command) (flags : Flags) (env : Env) (s : State) {t : State}
    → IsLawful env
    → IsCancelled env s.calls
    → ¬ (main command flags env s ≡ (ok tt, t))
main_cancelled command flags env s l cancelled h =
    (run_command-Early l cancelled (main_checker flags env) command flags).at s
      (main-ok command flags env s h) same
