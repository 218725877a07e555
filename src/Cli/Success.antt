-- ===== src/Cli/Success.antt =====
-- Every command succeeds in a healthy environment.
use mathlib.Core.Path.{subst}
use kibertas.Prelude.{◌<◌, ◌≤◌, ◌≡◌, sym}
use kibertas.Logger.{init_logger}
use kibertas.Run.{State, ok, Env, IsLawful, ◌>>=◌}
use kibertas.Run.Returns.{Succeeds, Succeeds-made, on_error-of_ok}
use kibertas.Healthy.{IsLong, IsHealthy}
use kibertas.Cli.Timeout.{timeout_duration-IsLong}
use kibertas.Notify.{new_chatwork}
use kibertas.Cmd.{Checker, new_checker}
use kibertas.Ingress.Success as Ingress
use kibertas.Fluent.Success as Fluent
use kibertas.ClusterAutoscaler.Success as ClusterAutoscaler
use kibertas.CertManager.Success as CertManager
use kibertas.DatadogAgent.Success as DatadogAgent
use kibertas.DatadogAgent.Check as Datadog
use kibertas.Cli.{checker_of, Command, Flags, run_command, init_chatwork, report_error, main}
use kibertas.Cli.Outcomes.{chatwork_of}
use kibertas.Cli.Commands.{IsSequential, OfChecks, run_command-holds, main_checker}

Succeeds-sequential : {env : Env} → IsSequential env (λ A. Succeeds {A = A} env)
Succeeds-sequential = record { made = λ m f makes h k. Succeeds-made m f h makes k }

-- the check that the datadog-agent command makes asks a client
checks-Succeeds :
    (env : Env) (checker : Checker)
    → IsLawful env
    → IsHealthy env
    → IsLong checker.timeout
    → OfChecks env checker (λ A. Succeeds {A = A} env)
checks-Succeeds env checker l healthy long = record {
  new_scaler = ClusterAutoscaler.Succeeds-new_cluster_autoscaler l healthy checker;
  scaler = λ c (same, named, mode, timely, set).
      ClusterAutoscaler.Succeeds-check l healthy c (subst IsLong (sym timely) long);
  new_ingress = λ no_dns_check. Ingress.Succeeds-new_ingress l healthy checker no_dns_check;
  ingress = λ i (same, named, mode, timely, set).
      Ingress.Succeeds-check l healthy i (subst IsLong (sym timely) long);
  new_fluent = Fluent.Succeeds-new_fluent l healthy checker;
  fluent = λ f (same, ours, mode, timely, set).
      Fluent.Succeeds-check l healthy f (subst IsLong (sym timely) long);
  new_agent = DatadogAgent.Succeeds-new_datadog_agent healthy checker;
  agent = λ d (same, (client, keys, asks), timely, query).
      subst (λ x. Succeeds env (Datadog.check x)) (sym asks)
        (DatadogAgent.Succeeds-check healthy d client (subst IsLong (sym timely) long));
  new_certs = CertManager.Succeeds-new_cert_manager l healthy checker;
  certs = λ c (same, named, mode, timely, set).
      CertManager.Succeeds-check l healthy c (subst IsLong (sym timely) long);
}

pub main_succeeds :
    (command : Command) (flags : Flags) (env : Env) (s : State)
    → IsLawful env
    → IsHealthy env
    → 1 < flags.timeout
    → flags.timeout ≤ 153722867
    → (t : State) × (main command flags env s ≡ (ok tt, t))
unfolding main checker_of new_checker init_logger init_chatwork new_chatwork ◌>>=◌
main_succeeds command flags env s l healthy two_le bounded =
    let checker = main_checker flags env in
    let long = timeout_duration-IsLong flags.timeout two_le bounded in
    let (u, t, e) =
      (run_command-holds l Succeeds-sequential (checks-Succeeds env checker l healthy long) command
          flags).at
        s in
    let (level, p) = healthy.parses_level in
    (
      t,
      rw p (
          on_error-of_ok {env = env} (run_command command flags checker)
            (report_error (chatwork_of env)) s e),
    )
