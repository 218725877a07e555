-- ===== src/DatadogAgent/New.antt =====
-- `NewDatadogAgent`: what it does, and what it makes.
use kibertas.Prelude.{text_or, Bool-cases, inl, inr, is_set, true, ◌≡◌, refl}
use kibertas.Api.{Call}
use kibertas.Run.{throw, Env}
use kibertas.Run.Adds.{Adds, Adds-bind, Adds-if, Adds-ask, Adds-pure, Adds-throw}
use kibertas.Run.Makes.{Makes, Makes-ask, Makes-made, Makes-skip, Makes-pure}
use kibertas.Cmd.{Checker}
use kibertas.Cmd.Effects.{Adds-announce_start}
use kibertas.DatadogAgent.Client.{DatadogClient, new_datadog_client, new_datadog_client_from_env}
use kibertas.DatadogAgent.Effects.{with_client}
use kibertas.DatadogAgent.Check.{
  DatadogAgent, DatadogMetrics, new_datadog_agent_with_client, new_datadog_agent,
}

module _ {P : Call → Type 0} (clock : P Call.now) where
  Adds-new_datadog_client_from_env : Adds P new_datadog_client_from_env
  unfolding new_datadog_client_from_env
  Adds-new_datadog_client_from_env =
      Adds-bind _ _ (Adds-ask _)
        (λ a. Adds-bind _ _ (Adds-ask _) (λ b. Adds-if _ _ _ (Adds-throw _) (Adds-pure _)))

  Adds-new_datadog_agent_with_client :
      (checker : Checker) (metrics : DatadogMetrics)
      → Adds P (new_datadog_agent_with_client checker metrics)
  unfolding new_datadog_agent_with_client
  Adds-new_datadog_agent_with_client checker metrics =
      Adds-bind _ _ (Adds-ask _)
        (λ a. Adds-bind _ _ (Adds-announce_start clock _) (λ b. Adds-pure _))

  pub Adds-new_datadog_agent : (checker : Checker) → Adds P (new_datadog_agent checker)
  unfolding new_datadog_agent
  Adds-new_datadog_agent checker =
      Adds-bind _ _ Adds-new_datadog_client_from_env
        (λ client. Adds-new_datadog_agent_with_client checker _)

-- The client with the keys of the environment, both of which are set.
pub record HasKeys (env : Env) (client : DatadogClient) : Type 0 where
  pub made : client ≡ new_datadog_client (env.getenv "DD_API_KEY") (env.getenv "DD_APP_KEY")
  pub api_key : is_set (env.getenv "DD_API_KEY") ≡ true
  pub app_key : is_set (env.getenv "DD_APP_KEY") ≡ true

new_datadog_client_from_env-HasKeys :
    (env : Env) → Makes env (HasKeys env) new_datadog_client_from_env
unfolding new_datadog_client_from_env throw
new_datadog_client_from_env-HasKeys env = Makes-ask _ _ (
    Makes-ask _ _ (elim (Bool-cases (is_set (env.getenv "DD_API_KEY"))) [
      | inl p ↦ elim (Bool-cases (is_set (env.getenv "DD_APP_KEY"))) [
        | inl q ↦ rw (p, q) (Makes-pure _ (record { made = refl; api_key = p; app_key = q }))
        | inr q ↦ rw (p, q) (record { at = λ s h. cc h })
      ]
      | inr p ↦ rw p (record { at = λ s h. cc h })
    ]))

-- what holds of a check that is made: its `Chatwork`, and that it asks a client, its timeout and its query
abbrev pub MadeDatadogAgent : Env → Checker → DatadogAgent → Type 0
MadeDatadogAgent env checker d =
    (d.chatwork ≡ checker.chatwork)
    × ((client : DatadogClient) × HasKeys env client × (d ≡ with_client d client))
    × (d.timeout ≡ checker.timeout)
    × (d.metrics_query ≡ text_or (env.getenv "QUERY_METRICS") "avg:kubernetes.cpu.user.total{*}")

pub new_datadog_agent-Makes :
    (checker : Checker) (env : Env)
    → Makes env (MadeDatadogAgent env checker) (new_datadog_agent checker)
unfolding new_datadog_agent new_datadog_agent_with_client
new_datadog_agent-Makes checker env =
    Makes-made _ _ (new_datadog_client_from_env-HasKeys env) (λ client keys.
      Makes-ask _ _ (Makes-skip _ _ (λ u. Makes-pure _ (refl, (client, keys, refl), refl, refl))))
