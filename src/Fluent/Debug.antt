-- ===== src/Fluent/Debug.antt =====
-- In debug mode the fluent check deletes nothing.
use kibertas.Prelude.{true, ◌≡◌}
use kibertas.Scope.{Keeps, Owned-Keeps}
use kibertas.Run.Adds.{Adds, Adds-bind, Adds-deferred, Adds-map, adds_rules}
use kibertas.Notify.Effects.{Adds-add_message, Adds-send}
use kibertas.Steps.Effects.{Adds-report_clean_up, Adds-report_nodes}
use kibertas.Fluent.Owns.{things, checked-Owned}
use kibertas.Fluent.Objects.{Fluent}
use kibertas.Fluent.Check.{clean_up_resources, list_nodes, run_checks, set_replicas, check}

list_nodes-Keeps : Adds Keeps list_nodes
unfolding list_nodes
list_nodes-Keeps = search (adds_rules, tt) depth 6

run_checks-Keeps : (f : Fluent) → f.debug ≡ true → Adds Keeps (run_checks f)
unfolding run_checks clean_up_resources
run_checks-Keeps f debug =
    Adds-deferred _ _ (Adds-report_clean_up _ (rw debug (Adds-add_message _)))
      (Adds-map (Owned-Keeps (things f)) (checked-Owned f))

pub check-Keeps : (f : Fluent) → f.debug ≡ true → Adds Keeps (check f)
unfolding check set_replicas
check-Keeps f debug = Adds-bind _ _ (Adds-add_message _) (λ u.
    Adds-deferred _ _ (Adds-send f.chatwork (λ r same. tt)) (
      Adds-bind _ _ (Adds-report_nodes _ list_nodes-Keeps) (λ nodes.
        Adds-bind _ _ (Adds-add_message _) (λ v. run_checks-Keeps (set_replicas f nodes) debug))))
