-- ===== src/Tests/Datadog.antt =====
-- A run of the datadog-agent check.
use kibertas.Prelude.{[], ◌≡◌, refl}
use kibertas.Run.{State, ok, ◌>>=◌, poll}
use kibertas.Run.Seen.{Seen}
use kibertas.Notify.{add_message, send}
use kibertas.Util.{sleep_context}
use kibertas.DatadogAgent.Client.{DatadogClient, query_metrics}
use kibertas.DatadogAgent.Check.{
  DatadogAgent, as_metrics, read_metrics, metrics_available, check_metrics, run_checks, check,
}
use kibertas.DatadogAgent.Effects.{with_client}
use kibertas.DatadogAgent.Evidence.{Arrived, metrics-Seen}
use kibertas.Tests.World.{calm, calm-IsLawful, start, checker}

abbrev client : DatadogClient
client = record { api_key = "key"; app_key = "app" }

abbrev agent : DatadogAgent
agent = record {
  checker = checker;
  metrics_query = "cpu";
  wait_time = 180;
  datadog_metrics = as_metrics client;
}

abbrev queried : State
queried = (check (with_client agent client) calm start).1

query_succeeds : check (with_client agent client) calm start ≡ (ok tt, queried)
unfolding check run_checks check_metrics metrics_available read_metrics query_metrics sleep_context
    poll add_message send ◌>>=◌
query_succeeds = refl

metrics-Seen_example : Seen (Arrived calm client "cpu") [] queried.calls
metrics-Seen_example = metrics-Seen agent client calm start calm-IsLawful query_succeeds
