-- ===== src/Steps/Effects.antt =====
-- What the shared steps do to a run.
use kibertas.Prelude.{String, ◌<>◌, inl, inr, List, ◌≡◌}
use kibertas.Go.Errors.{Error, text}
use kibertas.Api.{Call}
use kibertas.Run.{State, ok, Env, Action, throw, ◌>>=◌, ◌>>◌}
use kibertas.Run.Adds.{Adds, adds_rules}
use kibertas.Run.Lives.{Lives, lives_rules}
use kibertas.Run.Success.{on_error-ok}
use kibertas.Notify.{add_message}
use kibertas.Notify.Effects.{Adds-add_message, Lives-add_message}
use kibertas.Steps.{or_report, attempt, error_or_nil, report_clean_up, report_nodes}

module _ {P : Call → Type 0} where
  pub Adds-or_report :
      (front back : String) (m : Action (Unit {0})) → Adds P m → Adds P (or_report front back m)
  unfolding or_report
  Adds-or_report front back m k = search (adds_rules, Adds-add_message) depth 6

  pub Adds-attempt :
      (front back : String) (m : Action (Unit {0})) (r : List Error)
      → Adds P m
      → Adds P (attempt front back m r)
  unfolding attempt
  Adds-attempt front back m r k = search (adds_rules, Adds-add_message) depth 6

  pub Adds-error_or_nil : (r : List Error) → Adds P (error_or_nil r)
  unfolding error_or_nil
  Adds-error_or_nil r = search adds_rules

  pub Adds-report_clean_up : (m : Action (Unit {0})) → Adds P m → Adds P (report_clean_up m)
  unfolding report_clean_up
  Adds-report_clean_up m k = search (adds_rules, Adds-add_message)

  pub Adds-report_nodes : (m : Action (List String)) → Adds P m → Adds P (report_nodes m)
  unfolding report_nodes
  Adds-report_nodes m k = search (adds_rules, Adds-add_message) depth 6

pub Lives-or_report :
    (front back : String) (m : Action (Unit {0})) → Lives m → Lives (or_report front back m)
unfolding or_report
Lives-or_report front back m k = search (lives_rules, Lives-add_message) depth 6

pub Lives-attempt :
    (front back : String) (m : Action (Unit {0})) (r : List Error)
    → Lives m
    → Lives (attempt front back m r)
unfolding attempt
Lives-attempt front back m r k = search (lives_rules, Lives-add_message) depth 6

pub Lives-error_or_nil : (r : List Error) → Lives (error_or_nil r)
unfolding error_or_nil
Lives-error_or_nil r = search lives_rules

pub Lives-report_clean_up : (m : Action (Unit {0})) → Lives m → Lives (report_clean_up m)
unfolding report_clean_up
Lives-report_clean_up m k = search (lives_rules, Lives-add_message)

pub Lives-report_nodes : (m : Action (List String)) → Lives m → Lives (report_nodes m)
unfolding report_nodes
Lives-report_nodes m k = search (lives_rules, Lives-add_message) depth 6

-- A step that is reported and returned on an error has succeeded.
pub or_report-ok :
    (front back : String) (m : Action (Unit {0})) (env : Env) (s : State) {t : State}
    → or_report front back m env s ≡ (ok tt, t)
    → m env s ≡ (ok tt, t)
unfolding or_report add_message ◌>>=◌
or_report-ok front back m env s h =
    elim (on_error-ok m (λ e. add_message (front <> (text e <> back)) >> throw e) env s h) [
      | inl p ↦ p
      | inr (e, s', p, q) ↦ cc
    ]

-- a list of nodes whose error is reported and returned
pub report_nodes-ok :
    (m : Action (List String)) (env : Env) (s : State) {nodes : List String} {t : State}
    → report_nodes m env s ≡ (ok nodes, t)
    → m env s ≡ (ok nodes, t)
unfolding report_nodes add_message ◌>>=◌
report_nodes-ok m env s h =
    elim (on_error-ok m (λ e. add_message ("Error List Nodes: " <> (text e <> "\n")) >> throw e) env
      s h) [ inl p ↦ p | inr (e, s', p, q) ↦ cc ]

pub ruleset steps_adds = (
  Adds-add_message, Adds-or_report, Adds-attempt, Adds-error_or_nil, Adds-report_clean_up,
  Adds-report_nodes,
)

pub ruleset steps_lives = (
  Lives-add_message, Lives-or_report, Lives-attempt, Lives-error_or_nil, Lives-report_clean_up,
  Lives-report_nodes,
)
