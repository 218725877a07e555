-- ===== src/DatadogAgent/Keys.antt =====
-- The keys with which the program asks Datadog.
use mathlib.Core.Path.{subst}
use kibertas.Prelude.{some, [], ◌∷◌, String, is_set, true, ◌≡◌, refl, sym}
use kibertas.Api.{Call}
use kibertas.Run.{State, Env, IsLawful}
use kibertas.Run.Trace.{Since, Runs-Since}
use kibertas.Run.Adds.{Adds}
use kibertas.Run.Makes.{Walks-made}
use kibertas.Cmd.{Checker}
use kibertas.DatadogAgent.Client.{DatadogClient, new_datadog_client, context_keys}
use kibertas.DatadogAgent.Effects.{with_client, Adds-check}
use kibertas.DatadogAgent.New.{HasKeys, Adds-new_datadog_agent, new_datadog_agent-Makes}
use kibertas.DatadogAgent.Check.{check}
use kibertas.Cli.{run_datadog_agent}

-- A query carries both keys of the environment, and these are not empty.
abbrev pub Keyed : Env → Call → Type 0
Keyed env (Call.query_metrics keys from to query) =
    (keys
      ≡ some
          (("apiKeyAuth", env.getenv "DD_API_KEY") ∷ ("appKeyAuth", env.getenv "DD_APP_KEY") ∷ []))
    × (is_set (env.getenv "DD_API_KEY") ≡ true)
    × (is_set (env.getenv "DD_APP_KEY") ≡ true)
Keyed env _ = Unit

context_keys-both :
    (api_key app_key : String)
    → is_set api_key ≡ true
    → is_set app_key ≡ true
    → context_keys (new_datadog_client api_key app_key)
      ≡ some (("apiKeyAuth", api_key) ∷ ("appKeyAuth", app_key) ∷ [])
unfolding context_keys new_datadog_client
context_keys-both api_key app_key p q = rw p (rw q refl)

HasKeys-context_keys :
    (env : Env) (client : DatadogClient)
    → HasKeys env client
    → context_keys client
      ≡ some
          (("apiKeyAuth", env.getenv "DD_API_KEY") ∷ ("appKeyAuth", env.getenv "DD_APP_KEY") ∷ [])
HasKeys-context_keys env client h = rw h.made (context_keys-both _ _ h.api_key h.app_key)

check-Keyed :
    (env : Env) (client : DatadogClient) (d : _)
    → HasKeys env client
    → Adds (Keyed env) (check (with_client d client))
check-Keyed env client d h =
    Adds-check d client (λ from to q. (HasKeys-context_keys env client h, h.api_key, h.app_key))
      (λ n. tt) tt (λ r same. tt)

-- In a lawful environment, every query that the datadog-agent command sends, however it ends,
-- carries the two keys of the environment variables, and neither is empty.
pub run_datadog_agent-Keyed :
    (checker : Checker) (env : Env) (s : State)
    → IsLawful env
    → Since (Keyed env) s.calls (run_datadog_agent checker env s).1.calls
unfolding run_datadog_agent
run_datadog_agent-Keyed checker env s l = Runs-Since (
    Walks-made _ _ (new_datadog_agent-Makes checker env)
      ((Adds-new_datadog_agent {P = Keyed env} tt checker).at env l)
      (λ d (same, (client, keys, asks), timely, query).
        (subst (λ x. Adds (Keyed env) (check x)) (sym asks) (check-Keyed env client d keys)).at env
          l)
      s)
