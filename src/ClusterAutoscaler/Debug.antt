-- ===== src/ClusterAutoscaler/Debug.antt =====
-- In debug mode the cluster-autoscaler check deletes nothing.
use kibertas.Prelude.{true, ◌≡◌}
use kibertas.Scope.{Keeps, Owned-Keeps}
use kibertas.Run.Adds.{Adds, Adds-bind, Adds-deferred, Adds-map, adds_rules}
use kibertas.Notify.Effects.{Adds-add_message, Adds-send}
use kibertas.Steps.Effects.{Adds-report_clean_up, Adds-report_nodes}
use kibertas.ClusterAutoscaler.Owns.{things, create_resources-Owned}
use kibertas.ClusterAutoscaler.Objects.{ClusterAutoscaler}
use kibertas.ClusterAutoscaler.Check.{
  clean_up_resources, list_nodes, run_checks, set_replicas, check,
}

module _ (c : ClusterAutoscaler) where
  list_nodes-Keeps : Adds Keeps (list_nodes c)
  unfolding list_nodes
  list_nodes-Keeps = search (adds_rules, tt) depth 6

  run_checks-Keeps : c.debug ≡ true → Adds Keeps (run_checks c)
  unfolding run_checks clean_up_resources
  run_checks-Keeps debug =
      Adds-deferred _ _ (Adds-report_clean_up _ (rw debug (Adds-add_message _)))
        (Adds-map (Owned-Keeps (things c)) (create_resources-Owned c))

pub check-Keeps : (c : ClusterAutoscaler) → c.debug ≡ true → Adds Keeps (check c)
unfolding check set_replicas
check-Keeps c debug = Adds-bind _ _ (Adds-add_message _) (λ u.
    Adds-deferred _ _ (Adds-send c.chatwork (λ r same. tt)) (
      Adds-bind _ _ (Adds-report_nodes _ (list_nodes-Keeps c)) (λ nodes.
        Adds-bind _ _ (Adds-add_message _) (λ v. run_checks-Keeps (set_replicas c nodes) debug))))
