-- ===== src/DatadogAgent/Success.antt =====
-- The datadog-agent check succeeds in a healthy environment.
use kibertas.Run.{Env}
use kibertas.Run.Returns.{
  Returns, Succeeds, Returns-Succeeds, Succeeds-Returns, Succeeds-pure, Returns-pure, Returns-call,
  Returns-ask, Returns-skip, Succeeds-bind, Succeeds-on_error, Succeeds-deferred, Succeeds-ask,
  Succeeds-call, Succeeds-poll,
}
use kibertas.Healthy.{IsLong, IsHealthy}
use kibertas.K8s.Success.{Succeeds-issue}
use kibertas.Steps.Success.{Succeeds-add_message, Succeeds-send, Succeeds-announce_start}
use kibertas.Prelude.{arith, ℕ, String, true, none, List, ◌∷◌, ◌≡◌, refl}
use kibertas.Api.{Call}
use kibertas.Util.{sleep_context}
use kibertas.Prelude.Int.{ℤ}
use kibertas.Api.{MetricsReply}
use kibertas.Cmd.{Checker}
use kibertas.DatadogAgent.Client.{
  DatadogClient, context_keys, query_metrics, new_datadog_client_from_env,
}
use kibertas.DatadogAgent.Effects.{with_client}
use kibertas.DatadogAgent.Check.{
  DatadogAgent, new_datadog_agent_with_client, new_datadog_agent, read_series, read_metrics,
  metrics_available, check_metrics, run_checks, check,
}

module _ {env : Env} (healthy : IsHealthy env) where
  Returns-read_metrics :
      (reply : MetricsReply) (first : String) (rest : List String)
      → reply.error ≡ none
      → reply.api_error ≡ none
      → reply.series ≡ first ∷ rest
      → Returns env (λ b. b ≡ true) (read_metrics reply)
  unfolding read_metrics read_series
  Returns-read_metrics reply first rest p q r =
      rw (p, read_metrics)
        (rw (q, read_metrics)
          (rw r (Returns-skip _ _ (Succeeds-add_message _) (λ u. Returns-pure true refl))))

  Succeeds-sleep_context : (n : ℕ) → Succeeds env (sleep_context n)
  unfolding sleep_context
  Succeeds-sleep_context n = Succeeds-issue healthy _

  module _ (d : DatadogAgent) (client : DatadogClient) (long : IsLong d.timeout) where
    Returns-metrics_available :
        (from to : ℤ)
        → Returns env (λ b. b ≡ true) (metrics_available (with_client d client) from to)
    unfolding metrics_available query_metrics
    Returns-metrics_available from to =
        Returns-call (λ env. env.metrics) _ _
          (λ calls.
            let (p, q, (first, rest, r)) =
              healthy.measured calls
                (Call.query_metrics (context_keys client) from to d.metrics_query) in
            Returns-read_metrics _ first rest p q r)

    Succeeds-check_metrics : Succeeds env (check_metrics (with_client d client))
    unfolding check_metrics
    Succeeds-check_metrics = Succeeds-bind _ _ (Succeeds-add_message _) (λ u1.
        Succeeds-bind _ _ (Succeeds-sleep_context _) (λ u2.
          Succeeds-bind _ _ (Succeeds-call _ _) (λ t. Succeeds-on_error _ _ (
            Succeeds-poll healthy.patient _ _ _ _ (omega (arith, long.minute_lt)) long.bounded
              (Returns-metrics_available _ _)))))

    pub Succeeds-check : Succeeds env (check (with_client d client))
    unfolding check run_checks
    Succeeds-check = Succeeds-deferred _ _ (Succeeds-send healthy _) (
        Succeeds-bind _ _ (Succeeds-add_message _) (λ u1.
          Succeeds-bind _ _ (Succeeds-on_error _ _ Succeeds-check_metrics)
            (λ u2. Succeeds-add_message _)))

  Succeeds-new_datadog_client_from_env : Succeeds env new_datadog_client_from_env
  unfolding new_datadog_client_from_env
  Succeeds-new_datadog_client_from_env = Returns-Succeeds {Q = λ a. Unit {0}} (
      Returns-ask _ _ (
        Returns-ask _ _
          (rw (healthy.api_key) (rw (healthy.app_key) (Succeeds-Returns (Succeeds-pure _))))))

  pub Succeeds-new_datadog_agent : (checker : Checker) → Succeeds env (new_datadog_agent checker)
  unfolding new_datadog_agent new_datadog_agent_with_client
  Succeeds-new_datadog_agent checker =
      Succeeds-bind _ _ Succeeds-new_datadog_client_from_env (λ client.
        Succeeds-bind _ _ (Succeeds-ask _)
          (λ a. Succeeds-bind _ _ (Succeeds-announce_start healthy _) (λ b. Succeeds-pure _)))
