-- ===== src/DatadogAgent/Check.antt =====
-- cmd/datadog-agent/datadog-agent.go
use kibertas.Prelude.{
  ℕ, ◌*◌, String, ◌<>◌, Bool, true, false, Option, none, some, List, [], ◌∷◌, ◌==◌, if◌then◌else◌,
}
use kibertas.Prelude.Int.{ℤ, ◌-ℤ◌}
use kibertas.Go.Errors.{Error, plain, wrapped, text}
use kibertas.Api.{MetricsReply}
use kibertas.Run.{Action, pure, throw, ◌>>=◌, ◌>>◌, on_error, deferred, deref, poll}
use kibertas.Util.{sleep_context}
use kibertas.Notify.{add_message, send}
use kibertas.Cmd.{Checker, now, announce_start, getenv_or}
use kibertas.K8s.{second}
use kibertas.DatadogAgent.Client.{DatadogClient, query_metrics, new_datadog_client_from_env}

-- The interface `DatadogMetrics`.
pub record DatadogMetrics : Type 0 where
  pub query : ℤ → ℤ → String → Action MetricsReply

pub record DatadogAgent : Type 0 where
  pub checker : Checker
  pub open checker use *
  pub metrics_query : String
  pub wait_time : ℕ
  pub datadog_metrics : DatadogMetrics

-- `NewDatadogAgentWithClient`
unfoldable pub new_datadog_agent_with_client : Checker → DatadogMetrics → Action DatadogAgent
unfolding announce_start
new_datadog_agent_with_client checker metrics = do
  query_metrics ← getenv_or "QUERY_METRICS" "avg:kubernetes.cpu.user.total{*}"
  announce_start checker.cluster_name
  pure (record {
    checker = checker;
    metrics_query = query_metrics;
    wait_time = 3 * 60 * second;
    datadog_metrics = metrics;
  })

-- A client as a provider of metrics.
abbrev pub as_metrics : DatadogClient → DatadogMetrics
as_metrics client = record { query = query_metrics client }

-- `NewDatadogAgent`
unfoldable pub new_datadog_agent : Checker → Action DatadogAgent
unfolding new_datadog_agent_with_client new_datadog_client_from_env
new_datadog_agent checker = do
  client ← new_datadog_client_from_env
  new_datadog_agent_with_client checker (as_metrics client)

-- A query that returned the error `e`.
query_failed : Option ℕ → Error → Action Bool
query_failed none e = throw e
query_failed (some code) e =
    if code == 403
    then throw (plain "403 Forbidden")
    else if code == 401
    then throw (plain "401 Unauthorized")
    else throw e

-- A query that the API refused; the status code is read through a pointer.
api_refused : Option ℕ → String → Action Bool
api_refused status_code message = do
  code ← deref status_code
  if code == 200
      then throw (plain ("HTTP status was 200 OK but got Datadog API error: " <> message))
      else pure false

-- A query that was answered with these series.
unfoldable pub read_series : List String → Action Bool
read_series [] = pure false
read_series (_ ∷ _) = do add_message "Response from `MetricsApi.QueryMetrics`\n"; pure true

unfoldable pub read_metrics : MetricsReply → Action Bool
unfolding query_failed api_refused read_series
read_metrics reply = elim reply.error [
  | some e ↦ query_failed reply.status_code e
  | none ↦ elim reply.api_error [
    | some message ↦ api_refused reply.status_code message
    | none ↦ read_series reply.series
  ]
]

-- The condition of the poll in `checkMetrics`.
unfoldable pub metrics_available : DatadogAgent → ℤ → ℤ → Action Bool
unfolding read_metrics
metrics_available d from to = do
  reply ← d.datadog_metrics.query from to d.metrics_query
  read_metrics reply

unfoldable pub check_metrics : DatadogAgent → Action (Unit {0})
check_metrics d = do
  add_message ("Querying metrics with query: " <> (d.metrics_query <> "\n"))
  sleep_context d.wait_time
  t ← now
  let from = t.unix -ℤ 60 * 2
  on_error (poll (30 * second) d.timeout true (metrics_available d from t.unix))
      (λ e. throw (wrapped "error waiting for query metrics results: " e))

-- `Check`, behind its deferred call.
unfoldable pub run_checks : DatadogAgent → Action (Unit {0})
run_checks d = do
  add_message "datadog-agent check start\n"
  on_error (check_metrics d)
      (λ e. add_message ("checkMetrics error: " <> (text e <> "\n")) >> throw e)
  add_message "datadog-agent check finished\n"

unfoldable pub check : DatadogAgent → Action (Unit {0})
check d = deferred (send d.chatwork) (run_checks d)
