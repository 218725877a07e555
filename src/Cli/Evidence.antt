-- ===== src/Cli/Evidence.antt =====
-- What a run of the program has seen when it ends without an error.
use mathlib.Core.Path.{subst}
use kibertas.Prelude.{Bool, true, false, List, ◌≡◌, sym}
use kibertas.Api.{Call}
use kibertas.Run.{State, ok, Env, IsLawful}
use kibertas.Run.Seen.{Anything, Seen}
use kibertas.Run.Trace.{Runs-map}
use kibertas.Run.Makes.{Makes-both, Walks}
use kibertas.Run.Shows.{
  IsObservation, Seen-IsObservation, Some-IsObservation, Shows, Shows-made, Observes, Observes-then,
}
use kibertas.Cmd.{Checker}
use kibertas.Ingress.Objects.{Ingress}
use kibertas.Ingress.New.{Adds-new_ingress, new_ingress-Makes, new_ingress-Skips}
use kibertas.Ingress.Replies.{Resolved}
use kibertas.Ingress.Check as Ingress
use kibertas.Ingress.Evidence.{check-Ready, check-Resolved, check-Served}
use kibertas.Fluent.New.{Adds-new_fluent, new_fluent-Makes}
use kibertas.Fluent.Shipped.{Shipped-IsObservation, check-Shipped}
use kibertas.ClusterAutoscaler.New.{Adds-new_cluster_autoscaler, new_cluster_autoscaler-Makes}
use kibertas.ClusterAutoscaler.Evidence as ScalerEvidence
use kibertas.CertManager.New.{Adds-new_cert_manager, new_cert_manager-Makes}
use kibertas.CertManager.Evidence.{check-Issued}
use kibertas.DatadogAgent.Effects.{with_client}
use kibertas.DatadogAgent.New.{Adds-new_datadog_agent, new_datadog_agent-Makes}
use kibertas.DatadogAgent.Evidence.{Arrived, check-Arrived}
use kibertas.CertManager.Objects.{create_certificate_object}
use kibertas.DatadogAgent.Check as Datadog
use kibertas.Cli.Effects.{run_command-Ours}
use kibertas.Cli.Commands.{main-ok, main_checker}
use kibertas.Cli.{
  Flags, default_flags, Command, cluster_autoscaler, ingress, fluent, datadog_agent, cert_manager,
  all, run_command, run_cluster_autoscaler, run_ingress, run_fluent, run_datadog_agent,
  run_cert_manager, run_all, main,
}
use kibertas.Cli.Observed.{
  Scaled, Unless, Routed, Collected, Measured, Certified, All, Evidence, Routed-IsObservation,
  Measured-IsObservation, Certified-IsObservation,
}

module _ {env : Env} (l : IsLawful env) (checker : Checker) where
  run_cluster_autoscaler-Scaled : Shows env (Scaled env) (run_cluster_autoscaler checker)
  unfolding run_cluster_autoscaler
  run_cluster_autoscaler-Scaled =
      Shows-made l (Some-IsObservation (λ c. Seen-IsObservation)) _ _
        (new_cluster_autoscaler-Makes checker env l)
        (Adds-new_cluster_autoscaler (λ c same. tt) checker)
        (λ c (same, named, mode, timely, set). record {
          at = λ s h. (c, (named, set), (ScalerEvidence.check-Ready env l c).at s h);
        })

  check-Unless :
      (i : Ingress) (b : Bool)
      → i.no_dns_check ≡ b
      → Shows env (Unless b (Seen (Resolved env i))) (Ingress.check i)
  check-Unless i true p = record { at = λ s h. tt }
  check-Unless i false p = check-Resolved i env l p

  run_ingress-Routed :
      (no_dns_check : Bool) → Shows env (Routed env no_dns_check) (run_ingress checker no_dns_check)
  unfolding run_ingress
  run_ingress-Routed b =
      Shows-made l (Routed-IsObservation env b) _ _
        (Makes-both (new_ingress-Makes checker b env l) (new_ingress-Skips checker b env))
        (Adds-new_ingress (λ c same. tt) checker b)
        (λ i ((same, named, mode, timely, set), (dns, http)). record {
          at = λ s h. (
            i,
            (named, set),
            (
              (check-Ready i env l).at s h,
              ((check-Unless i b dns).at s h, (check-Served i env l http).at s h),
            ),
          );
        })

  run_fluent-Collected : Shows env (Collected env) (run_fluent checker)
  unfolding run_fluent
  run_fluent-Collected =
      Shows-made l (Some-IsObservation (Shipped-IsObservation env)) _ _
        (new_fluent-Makes checker env l) (Adds-new_fluent (λ c same. tt) checker)
        (λ f (same, ours, mode, timely, set). record {
          at = λ s h. (f, (ours, set), (check-Shipped env l f).at s h);
        })

  run_datadog_agent-Measured : Shows env (Measured env) (run_datadog_agent checker)
  unfolding run_datadog_agent
  run_datadog_agent-Measured =
      Shows-made l (Measured-IsObservation env) _ _ (new_datadog_agent-Makes checker env)
        (Adds-new_datadog_agent tt checker)
        (λ d (same, (client, keys, asks), timely, query).
          subst (λ x. Shows env (Measured env) (Datadog.check x)) (sym asks)
            (record {
              at = λ s h. (
                client,
                keys,
                (subst
                      (λ q.
                        Shows env (Seen (Arrived env client q))
                          (Datadog.check (with_client d client)))
                      query (check-Arrived d client env l)).at
                    s h,
              );
            }))

  run_cert_manager-Certified : Shows env (Certified env) (run_cert_manager checker)
  unfolding run_cert_manager create_certificate_object
  run_cert_manager-Certified =
      Shows-made l (Certified-IsObservation env) _ _ (new_cert_manager-Makes checker env l)
        (Adds-new_cert_manager (λ c same. tt) checker)
        (λ c (same, named, mode, timely, set). record {
          at = λ s h. (c, (named, set), (check-Issued c env l).at s h);
        })

  walks :
      (command : Command) (flags : Flags) → Walks env Anything (run_command command flags checker)
  walks command flags s = Runs-map (λ c p. tt) (run_command-Ours env l checker command flags s)

  observes :
      (command : Command) (flags : Flags) {R : List Call → List Call → Type 0}
      → IsObservation R
      → Shows env R (run_command command flags checker)
      → Observes env R (run_command command flags checker)
  observes command flags o k = record { observation = o; walks = walks command flags; shows = k }

  -- what the five checks show, in their order
  run_all-Shows : Shows env (All env) (run_all checker)
  unfolding run_all run_command
  run_all-Shows =
      (Observes-then
        (observes cluster_autoscaler default_flags (Some-IsObservation (λ c. Seen-IsObservation))
          run_cluster_autoscaler-Scaled)
        (Observes-then
          (observes ingress default_flags (Routed-IsObservation env false)
            (run_ingress-Routed false))
          (Observes-then
            (observes fluent default_flags (Some-IsObservation (Shipped-IsObservation env))
              run_fluent-Collected)
            (Observes-then
              (observes datadog_agent default_flags (Measured-IsObservation env)
                run_datadog_agent-Measured)
              (observes cert_manager default_flags (Certified-IsObservation env)
                run_cert_manager-Certified))))).shows

  run_command-Shows :
      (command : Command) (flags : Flags)
      → Shows env (Evidence env flags command) (run_command command flags checker)
  unfolding run_command
  run_command-Shows cluster_autoscaler flags = run_cluster_autoscaler-Scaled
  run_command-Shows ingress flags = run_ingress-Routed flags.no_dns_check
  run_command-Shows fluent flags = run_fluent-Collected
  run_command-Shows datadog_agent flags = run_datadog_agent-Measured
  run_command-Shows cert_manager flags = run_cert_manager-Certified
  run_command-Shows all flags = run_all-Shows

-- In a lawful environment, if a command ends without an error, what it tests has been seen since
-- it began, in a namespace named for a test, or for the fluent check also the one of
-- RESOURCE_NAMESPACE, and with the names that the environment variables give, or else their
-- defaults. For the ingress, the cluster-autoscaler and the fluent check: their deployment was
-- read with every replica ready. For the ingress check: among the records of EXTERNAL_HOSTNAME was
-- an address, unless the DNS check is skipped, and its endpoint answered 200. For the fluent
-- check: an object was listed in the bucket LOG_BUCKET_NAME under LOG_PATH, or the default path of
-- a day on the clock, that was modified after an instant read from the clock since the command
-- began. For the datadog-agent check: the query QUERY_METRICS with both keys was answered with a
-- series. For the cert-manager check: the secrets of the root CA and of the certificate, named
-- RESOURCE_NAME with -tls and with -cert, were there. For test all: all of these, and the DNS
-- check is not skipped.
pub main-Evidence :
    (command : Command) (flags : Flags) (env : Env) (s : State) {t : State}
    → IsLawful env
    → main command flags env s ≡ (ok tt, t)
    → Evidence env flags command s.calls t.calls
main-Evidence command flags env s l h =
    (run_command-Shows l (main_checker flags env) command flags).at s
      (main-ok command flags env s h)
