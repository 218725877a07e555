-- ===== src/DatadogAgent/Evidence.antt =====
-- What a successful datadog-agent check has seen.
use mathlib.Core.Path.{subst}
use kibertas.Prelude.{◌*◌, String, Bool, true, List, ◌∷◌, ◌≡◌, refl, ap, sym, ◌∙◌}
use kibertas.Prelude.Int.{ℤ, ◌-ℤ◌}
use kibertas.Api.{Call}
use kibertas.Run.{State, Outcome, ok, Env, IsLawful, ◌>>=◌}
use kibertas.Run.Adds.{Adds, adds_rules}
use kibertas.Run.Trace.{same}
use kibertas.Run.Shows.{Seen-IsObservation, Shows, any_call, Shows-first, Shows-rest, Shows-poll}
use kibertas.Steps.Shows.{Shows-or_report, Shows-sent}
use kibertas.Run.Seen.{Anything, Seen, here}
use kibertas.Notify.Effects.{Adds-add_message}
use kibertas.Cmd.{now}
use kibertas.Steps.{or_report}
use kibertas.K8s.{second}
use kibertas.DatadogAgent.Effects.{with_client, metrics_available-Within, sleep_context-Within}
use kibertas.DatadogAgent.Client.{DatadogClient, context_keys, query_metrics}
use kibertas.DatadogAgent.Check.{DatadogAgent, metrics_available, check_metrics, run_checks, check}
use kibertas.DatadogAgent.Reading.{
  Verdict, arrived, retry, crash, stop, verdict, carried_out, read_metrics-verdict,
}

-- The answer to a query of a client for these metrics, without errors and with a series.
abbrev pub Arrived : Env → DatadogClient → String → List Call → Call → Type 0
Arrived env client query before c =
    ((from to : ℤ) × (c ≡ Call.query_metrics (context_keys client) from to query))
    × (verdict (env.metrics before c) ≡ arrived)

carried_out-true :
    (v : Verdict) (s : State) {t : State}
    → carried_out v s ≡ (ok true, t)
    → (v ≡ arrived) × (t.calls ≡ s.calls)
carried_out-true arrived s h = (refl, sym (ap (λ (p : Outcome Bool × State). p.1.calls) h))
carried_out-true retry s h = cc
carried_out-true crash s h = cc
carried_out-true (stop e) s h = cc

module _ (d : DatadogAgent) (client : DatadogClient) (from to : ℤ) where
  metrics_available-true :
      (env : Env) (s : State) {t : State}
      → metrics_available (with_client d client) from to env s ≡ (ok true, t)
      → Seen (Arrived env client d.metrics_query) s.calls t.calls
  unfolding metrics_available query_metrics ◌>>=◌
  metrics_available-true env s h =
      let c = Call.query_metrics (context_keys client) from to d.metrics_query in
      let s' = record s { calls = c ∷ s.calls } in
      let reply = env.metrics s.calls c in
      let (p, e) =
        carried_out-true (verdict reply) s' (sym (read_metrics-verdict reply env s') ∙ h) in
      subst (Seen (Arrived env client d.metrics_query) s.calls) (sym e)
        (here same ((from, to, refl), p))

Adds-now : Adds Anything now
Adds-now = search (adds_rules, tt)

module _ (d : DatadogAgent) (client : DatadogClient) (env : Env) (l : IsLawful env) where
  available : (from to : ℤ) → Adds Anything (metrics_available (with_client d client) from to)
  available from to = any_call (metrics_available-Within "" "" d client from to)

  check_metrics-Arrived :
      Shows env (Seen (Arrived env client d.metrics_query)) (check_metrics (with_client d client))
  unfolding check_metrics
  check_metrics-Arrived = Shows-rest l Seen-IsObservation _ _ (Adds-add_message _) (λ u.
      Shows-rest l Seen-IsObservation _ _ (any_call (sleep_context-Within "" "" d client _)) (λ v.
        Shows-rest l Seen-IsObservation _ _ Adds-now (λ time.
          Shows-poll l Seen-IsObservation (30 * second) d.timeout true
            "error waiting for query metrics results: " _ (available _ _)
            (λ s t h. metrics_available-true d client (time.unix -ℤ 60 * 2) time.unix env s h))))

  pub check-Arrived :
      Shows env (Seen (Arrived env client d.metrics_query)) (check (with_client d client))
  unfolding check run_checks or_report
  check-Arrived = Shows-sent l Seen-IsObservation _ _ (
      Shows-rest l Seen-IsObservation _ _ (Adds-add_message _) (λ u.
        Shows-first l Seen-IsObservation _ _
          (Shows-or_report "checkMetrics error: " "\n" _ check_metrics-Arrived)
          (λ v. Adds-add_message _)))

module _ (d : DatadogAgent) (client : DatadogClient) where
  -- In a lawful environment, a datadog-agent check that queries by a client and returns no error
  -- has, since it began, been answered its query by that client without an error and with a
  -- series.
  pub metrics-Seen :
      (env : Env) (s : State) {t : State}
      → IsLawful env
      → check (with_client d client) env s ≡ (ok tt, t)
      → Seen (Arrived env client d.metrics_query) s.calls t.calls
  metrics-Seen env s l h = (check-Arrived d client env l).at s h
