-- ===== src/Cli/Debug.antt =====
-- In debug mode a run of the program deletes nothing.
use mathlib.Core.Path.{subst}
use kibertas.Prelude.{true, ◌≡◌, sym, ◌∙◌}
use kibertas.Api.{Call}
use kibertas.Scope.{reads, effect_of, IsKept, Keeps}
use kibertas.Run.{State, Env, IsLawful}
use kibertas.Run.Trace.{Since, Runs-Since}
use kibertas.Run.Adds.{Adds}
use kibertas.Run.Makes.{Walks, Walks-on_error}
use kibertas.Cmd.{Checker, new_checker}
use kibertas.Ingress.New.{Adds-new_ingress}
use kibertas.Ingress.Debug as Ingress
use kibertas.Fluent.New.{Adds-new_fluent}
use kibertas.Fluent.Debug as Fluent
use kibertas.ClusterAutoscaler.New.{Adds-new_cluster_autoscaler}
use kibertas.ClusterAutoscaler.Debug as ClusterAutoscaler
use kibertas.CertManager.New.{Adds-new_cert_manager}
use kibertas.CertManager.Debug as CertManager
use kibertas.DatadogAgent.New.{Adds-new_datadog_agent}
use kibertas.DatadogAgent.Effects.{Adds-check}
use kibertas.DatadogAgent.Check as Datadog
use kibertas.Cli.{Command, Flags, checker_of, main}
use kibertas.Cli.Outcomes.{chatwork_of}
use kibertas.Cli.Commands.{
  OfChecks, run_command-holds, Walks-sequential, Adds-report_error, main_checker, main-from,
}

quiet : (c : Call) → effect_of c ≡ reads → Keeps c
quiet c h = subst IsKept (sym h) tt

checks-Keeps :
    (env : Env) (checker : Checker)
    → IsLawful env
    → checker.debug ≡ true
    → OfChecks env checker (λ A. Walks {A = A} env Keeps)
checks-Keeps env checker l debug = record {
  new_scaler = (Adds-new_cluster_autoscaler quiet checker).at env l;
  scaler = λ c (same, named, mode, timely, set).
      (ClusterAutoscaler.check-Keeps c (mode ∙ debug)).at env l;
  new_ingress = λ no_dns_check. (Adds-new_ingress quiet checker no_dns_check).at env l;
  ingress = λ i (same, named, mode, timely, set). (Ingress.check-Keeps i (mode ∙ debug)).at env l;
  new_fluent = (Adds-new_fluent quiet checker).at env l;
  fluent = λ f (same, ours, mode, timely, set). (Fluent.check-Keeps f (mode ∙ debug)).at env l;
  new_agent = (Adds-new_datadog_agent {P = Keeps} tt checker).at env l;
  agent = λ d (same, (client, keys, asks), timely, query).
      (subst (λ x. Adds Keeps (Datadog.check x)) (sym asks)
          (Adds-check d client (λ from to q. tt) (λ n. tt) tt (λ r same. tt))).at
        env l;
  new_certs = (Adds-new_cert_manager quiet checker).at env l;
  certs = λ c (same, named, mode, timely, set). (CertManager.check-Keeps c (mode ∙ debug)).at env l;
}

-- In a lawful environment, a run in debug mode deletes nothing, whatever command is run and
-- however it ends.
pub main_debug-Keeps :
    (command : Command) (flags : Flags) (env : Env) (s : State)
    → IsLawful env
    → flags.debug ≡ true
    → Since Keeps s.calls (main command flags env s).1.calls
unfolding checker_of new_checker
main_debug-Keeps command flags env s l debug =
    main-from command flags env s (λ p. Since Keeps s.calls p.1.calls) Since.same
      (Runs-Since (
        Walks-on_error _ _
          (run_command-holds l Walks-sequential (checks-Keeps env (main_checker flags env) l debug)
            command flags)
          (λ e. (Adds-report_error (chatwork_of env) (λ r same. tt) e).at env l) s))
