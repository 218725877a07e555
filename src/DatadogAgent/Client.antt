-- ===== src/DatadogAgent/Client.antt =====
-- cmd/datadog-agent/client.go, and the constructor of a client in datadog-agent.go.
use kibertas.Prelude.{String, Option, none, some, [], ◌∷◌, ◌++◌, ◌||◌, not, is_set, if◌then◌else◌}
use kibertas.Prelude.Int.{ℤ}
use kibertas.Go.Errors.{plain}
use kibertas.Api.{Call, Labels, MetricsReply}
use kibertas.Run.{Action, pure, throw, ◌>>=◌, ask, call}

-- `DatadogClient`, with `api` left out.
pub record DatadogClient : Type 0 where
  pub api_key : String
  pub app_key : String

unfoldable pub new_datadog_client : String → String → DatadogClient
new_datadog_client api_key app_key = record { api_key = api_key; app_key = app_key }

-- One entry of the map `keys`, if the key is set.
abbrev key_entry : String → String → Labels
key_entry name key = if is_set key then (name, key) ∷ [] else []

-- `len(keys) > 0`
abbrev if_any : Labels → Option Labels
if_any [] = none
if_any (key ∷ keys) = some (key ∷ keys)

-- The keys that replace those of the environment; `none` where both keys are empty.
unfoldable pub context_keys : DatadogClient → Option Labels
context_keys c = if_any (key_entry "apiKeyAuth" c.api_key ++ key_entry "appKeyAuth" c.app_key)

-- `QueryMetrics`
unfoldable pub query_metrics : DatadogClient → ℤ → ℤ → String → Action MetricsReply
query_metrics c from to query =
    call (λ env. env.metrics) (Call.query_metrics (context_keys c) from to query)

-- `newDatadogClientFromEnv`
unfoldable pub new_datadog_client_from_env : Action DatadogClient
unfolding new_datadog_client
new_datadog_client_from_env = do
  api_key ← ask (λ env. env.getenv "DD_API_KEY")
  app_key ← ask (λ env. env.getenv "DD_APP_KEY")
  if not (is_set api_key) || not (is_set app_key)
      then throw (plain "DD_API_KEY or DD_APP_KEY is empty")
      else pure (new_datadog_client api_key app_key)
