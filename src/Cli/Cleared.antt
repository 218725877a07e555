-- ===== src/Cli/Cleared.antt =====
-- Outside debug mode a run of the program leaves nothing in the cluster.
use mathlib.Core.Path.{subst}
use kibertas.Prelude.{false, ◌≡◌, sym, ◌∙◌}
use kibertas.Scope.{Thing}
use kibertas.Run.{State, Env, IsLawful}
use kibertas.Run.Adds.{Adds}
use kibertas.Run.Left.{Left, Idle, reads-Idle, Clears, Clears-made, Clears-on_error, Adds-Clears}
use kibertas.Cmd.{Checker, new_checker}
use kibertas.Ingress.New.{Adds-new_ingress}
use kibertas.Ingress.Cleared as Ingress
use kibertas.Fluent.New.{Adds-new_fluent}
use kibertas.Fluent.Cleared as Fluent
use kibertas.ClusterAutoscaler.New.{Adds-new_cluster_autoscaler}
use kibertas.ClusterAutoscaler.Cleared as ClusterAutoscaler
use kibertas.CertManager.New.{Adds-new_cert_manager}
use kibertas.CertManager.Cleared as CertManager
use kibertas.DatadogAgent.New.{Adds-new_datadog_agent}
use kibertas.DatadogAgent.Effects.{Adds-check}
use kibertas.DatadogAgent.Check as Datadog
use kibertas.Cli.{Command, Flags, checker_of, main}
use kibertas.Cli.Outcomes.{chatwork_of}
use kibertas.Cli.Commands.{
  IsSequential, OfChecks, run_command-holds, Adds-report_error, main_checker, main-from,
}

Clears-sequential : {env : Env} → IsSequential env (λ A. Clears {A = A} env)
Clears-sequential = record { made = λ m f makes h k. Clears-made m f makes k h }

checks-Clears :
    (env : Env) (checker : Checker)
    → IsLawful env
    → checker.debug ≡ false
    → OfChecks env checker (λ A. Clears {A = A} env)
checks-Clears env checker l debug = record {
  new_scaler = Adds-Clears l (Adds-new_cluster_autoscaler reads-Idle checker);
  scaler =
      λ c (same, named, mode, timely, set). ClusterAutoscaler.check-Clears c env l (mode ∙ debug);
  new_ingress = λ no_dns_check. Adds-Clears l (Adds-new_ingress reads-Idle checker no_dns_check);
  ingress = λ i (same, named, mode, timely, set). Ingress.check-Clears i env l (mode ∙ debug);
  new_fluent = Adds-Clears l (Adds-new_fluent reads-Idle checker);
  fluent = λ f (same, ours, mode, timely, set). Fluent.check-Clears f env l (mode ∙ debug);
  new_agent = Adds-Clears l (Adds-new_datadog_agent {P = Idle} tt checker);
  agent = λ d (same, (client, keys, asks), timely, query). Adds-Clears l (
      subst (λ x. Adds Idle (Datadog.check x)) (sym asks)
        (Adds-check d client (λ from to q. tt) (λ n. tt) tt (λ r same. tt)));
  new_certs = Adds-Clears l (Adds-new_cert_manager reads-Idle checker);
  certs = λ c (same, named, mode, timely, set). CertManager.check-Clears c env l (mode ∙ debug);
}

main-Clears :
    (command : Command) (flags : Flags) (env : Env)
    → IsLawful env
    → flags.debug ≡ false
    → Clears env (main command flags)
unfolding checker_of new_checker
main-Clears command flags env l debug = record {
  at = λ s o.
      main-from command flags env s (λ p. Left o p.1.calls → Left o s.calls) (λ left. left)
        ((Clears-on_error _ _
            (run_command-holds l Clears-sequential
              (checks-Clears env (main_checker flags env) l debug) command flags)
            (λ e. Adds-Clears l (Adds-report_error (chatwork_of env) (λ r same. tt) e))).at
          s o);
}

-- In a lawful environment and outside debug mode, whatever command is run and however it ends, a
-- run leaves nothing behind: a thing that was not left by the calls before it is not left by the
-- calls up to its end, where a thing is left if its creation has been asked for and its deletion
-- has not been asked for since.
pub main-Left :
    (command : Command) (flags : Flags) (env : Env) (s : State) (o : Thing)
    → IsLawful env
    → flags.debug ≡ false
    → ¬ Left o s.calls
    → ¬ Left o (main command flags env s).1.calls
main-Left command flags env s o l debug before left =
    before ((main-Clears command flags env l debug).at s o left)
