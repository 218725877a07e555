-- ===== src/Cli/Housed.antt =====
-- The namespaces in which a run of the program acts.
use mathlib.Core.Path.{subst}
use kibertas.Prelude.{sym}
use kibertas.Run.{State, Env, IsLawful}
use kibertas.Run.Adds.{Adds}
use kibertas.Run.Housed.{Adds-Aside, MayHouse, Housed, Aside, reads-Aside}
use kibertas.Run.Goes.{Follows, Goes, Goes-made, Goes-on_error, Any}
use kibertas.Cmd.{Checker}
use kibertas.Ingress.New.{Adds-new_ingress}
use kibertas.Ingress.Housed as Ingress
use kibertas.Fluent.New.{Adds-new_fluent}
use kibertas.Fluent.Housed as Fluent
use kibertas.ClusterAutoscaler.New.{Adds-new_cluster_autoscaler}
use kibertas.ClusterAutoscaler.Housed as ClusterAutoscaler
use kibertas.CertManager.New.{Adds-new_cert_manager}
use kibertas.CertManager.Housed as CertManager
use kibertas.DatadogAgent.New.{Adds-new_datadog_agent}
use kibertas.DatadogAgent.Effects.{Adds-check}
use kibertas.DatadogAgent.Check as Datadog
use kibertas.Cli.{Command, Flags, main}
use kibertas.Cli.Outcomes.{chatwork_of}
use kibertas.Cli.Commands.{
  IsSequential, OfChecks, run_command-holds, Adds-report_error, main_checker, main-from,
}

Goes-sequential : {env : Env} → IsSequential env (λ A. Goes {A = A} env MayHouse Any Any)
Goes-sequential = record { made = λ m f makes h k. Goes-made (λ calls b. b) m f makes k h }

checks-Goes :
    (env : Env) (checker : Checker)
    → IsLawful env
    → OfChecks env checker (λ A. Goes {A = A} env MayHouse Any Any)
checks-Goes env checker l = record {
  new_scaler = Adds-Aside l (Adds-new_cluster_autoscaler reads-Aside checker);
  scaler = λ c made. ClusterAutoscaler.check-Goes l c;
  new_ingress = λ no_dns_check. Adds-Aside l (Adds-new_ingress reads-Aside checker no_dns_check);
  ingress = λ i made. Ingress.check-Goes l i;
  new_fluent = Adds-Aside l (Adds-new_fluent reads-Aside checker);
  fluent = λ f made. Fluent.check-Goes l f;
  new_agent = Adds-Aside l (Adds-new_datadog_agent {P = Aside} tt checker);
  agent = λ d (unchanged, (client, keys, asks), timely, query). Adds-Aside l (
      subst (λ x. Adds Aside (Datadog.check x)) (sym asks)
        (Adds-check d client (λ from to q. tt) (λ n. tt) tt (λ r same. tt)));
  new_certs = Adds-Aside l (Adds-new_cert_manager reads-Aside checker);
  certs = λ c made. CertManager.check-Goes l c;
}

-- In a lawful environment, whatever command is run and however it ends, everything that the
-- program creates, updates or deletes, except a namespace that it creates, is at that moment in a
-- namespace, or is one, whose creation has been asked for and whose deletion has not been asked
-- for since.
pub main-Housed :
    (command : Command) (flags : Flags) (env : Env) (s : State)
    → IsLawful env
    → Housed s.calls (main command flags env s).1.calls
main-Housed command flags env s l =
    main-from command flags env s (λ p. Housed s.calls p.1.calls) Follows.same
      ((Goes-on_error (λ calls b. b) _ _
          (run_command-holds l Goes-sequential (checks-Goes env (main_checker flags env) l) command
            flags)
          (λ e. Adds-Aside l (Adds-report_error (chatwork_of env) (λ r same. tt) e))).at
        s tt).0
