-- ===== src/DatadogAgent/Effects.antt =====
-- What the datadog-agent check does outside the program: it changes nothing.
use kibertas.Prelude.{◌≡◌, ℕ, String, ◌<>◌}
use kibertas.Prelude.Int.{ℤ}
use kibertas.Api.{Call, Request, MetricsReply}
use kibertas.Go.Errors.{text}
use kibertas.Run.{State, Env, on_error, throw, ◌>>◌}
use kibertas.Run.Adds.{Adds-on_error, Adds-bind, Adds-throw, Adds, Adds-deferred, adds_rules}
use kibertas.Scope.{Within}
use kibertas.Util.{sleep_context}
use kibertas.Notify.{api_url, add_message}
use kibertas.Notify.Effects.{Adds-send, Adds-add_message}
use kibertas.DatadogAgent.Client.{DatadogClient, context_keys, query_metrics}
use kibertas.Run.Trace.{Runs, stay, say}
use kibertas.DatadogAgent.Reading.{
  Verdict, arrived, retry, crash, stop, verdict, carried_out, read_metrics-verdict,
}
use kibertas.DatadogAgent.Check.{
  DatadogAgent, as_metrics, read_metrics, metrics_available, check_metrics, run_checks, check,
}

-- A check whose provider of metrics is a client.
abbrev pub with_client : DatadogAgent → DatadogClient → DatadogAgent
with_client d client = record d { datadog_metrics = as_metrics client }

module _ {P : Call → Type 0} where
  carried_out-Runs : (v : Verdict) (env : Env) (s : State) → Runs env P s (carried_out v s).1
  carried_out-Runs arrived env s = say _ stay
  carried_out-Runs retry env s = stay
  carried_out-Runs crash env s = stay
  carried_out-Runs (stop e) env s = stay

  pub Adds-read_metrics : (reply : MetricsReply) → Adds P (read_metrics reply)
  Adds-read_metrics reply = record {
    at = λ env l s. rw read_metrics-verdict (carried_out-Runs (verdict reply) env s);
  }

-- Each call of the check meets `P`.
module _ {P : Call → Type 0} (d : DatadogAgent) (client : DatadogClient)
    (query : (from to : ℤ) (q : String) → P (Call.query_metrics (context_keys client) from to q))
    (wait : (n : ℕ) → P (Call.sleep n)) (clock : P Call.now)
    (message : (r : Request) → r.url ≡ api_url d.chatwork → P (Call.post_message r)) where
  Adds-metrics_available : (from to : ℤ) → Adds P (metrics_available (with_client d client) from to)
  unfolding metrics_available query_metrics
  Adds-metrics_available from to = search (adds_rules, Adds-read_metrics, query) depth 6

  Adds-sleep_context : (n : ℕ) → Adds P (sleep_context n)
  unfolding sleep_context
  Adds-sleep_context n = search (adds_rules, wait)

  Adds-check_metrics : Adds P (check_metrics (with_client d client))
  unfolding check_metrics
  Adds-check_metrics =
      search (adds_rules, Adds-add_message, Adds-sleep_context, Adds-metrics_available, clock) depth
        9

  Adds-run_checks : Adds P (run_checks (with_client d client))
  unfolding run_checks
  Adds-run_checks = search (adds_rules, Adds-add_message, Adds-check_metrics) depth 8

  pub Adds-check : Adds P (check (with_client d client))
  unfolding check
  Adds-check = Adds-deferred _ _ (Adds-send d.chatwork message) Adds-run_checks

module _ (url ns : String) (d : DatadogAgent) (client : DatadogClient) where
  pub metrics_available-Within :
      (from to : ℤ) → Adds (Within url ns) (metrics_available (with_client d client) from to)
  unfolding metrics_available query_metrics
  metrics_available-Within from to = search (adds_rules, Adds-read_metrics, tt) depth 6

  pub sleep_context-Within : (n : ℕ) → Adds (Within url ns) (sleep_context n)
  unfolding sleep_context
  sleep_context-Within n = search (adds_rules, tt)

-- the part of the check between its first and its last message
pub reported_metrics-Within :
    (ns : String) (d : DatadogAgent) (client : DatadogClient)
    → Adds (Within (api_url d.chatwork) ns) (
        on_error
          (check_metrics (with_client d client))
          (λ e. add_message ("checkMetrics error: " <> (text e <> "\n")) >> throw e))
reported_metrics-Within ns d client =
    Adds-on_error _ _
      (Adds-check_metrics {P = Within (api_url d.chatwork) ns} d client (λ from to q. tt) (λ n. tt)
        tt (λ r same. same))
      (λ e. Adds-bind _ _ (Adds-add_message _) (λ u. Adds-throw _))

pub check-Within :
    (ns : String) (d : DatadogAgent) (client : DatadogClient)
    → Adds (Within (api_url d.chatwork) ns) (check (with_client d client))
check-Within ns d client = Adds-check d client (λ from to q. tt) (λ n. tt) tt (λ r same. same)
