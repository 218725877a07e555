-- ===== src/ClusterAutoscaler/Success.antt =====
-- The cluster-autoscaler check succeeds in a healthy environment.
use kibertas.Run.{or_throw, Env, IsLawful}
use kibertas.Run.Returns.{
  Succeeds, Returns-Succeeds, Succeeds-Returns, Succeeds-pure, Returns-call, Succeeds-bind,
  Succeeds-if, Succeeds-on_error, Succeeds-deferred, Succeeds-ask, Succeeds-call, Succeeds-or_throw,
}
use kibertas.Healthy.{IsLong, IsHealthy}
use kibertas.K8s.Success.{
  Succeeds-create_namespace, Succeeds-create_deployment, Succeeds-delete_deployment,
  Succeeds-delete_namespace,
}
use kibertas.Steps.Success.{
  Succeeds-add_message, Succeeds-or_report, Succeeds-report_clean_up, Succeeds-report_nodes,
  Succeeds-attempt, Succeeds-send, Succeeds-announce_start, Succeeds-new_k8s_clientset,
  Succeeds-generate_random_string, Succeeds-error_or_nil,
}
use kibertas.Api.{Call}
use kibertas.Cmd.{Checker}
use kibertas.ClusterAutoscaler.Objects.{ClusterAutoscaler, new_cluster_autoscaler}
use kibertas.ClusterAutoscaler.Check.{
  set_replicas, create_resources, clean_up_resources, list_nodes, node_label, run_checks, check,
}

module _ {env : Env} (l : IsLawful env) (healthy : IsHealthy env) where
  module _ (c : ClusterAutoscaler) (long : IsLong c.timeout) where
    Succeeds-create_resources : Succeeds env (create_resources c)
    unfolding create_resources
    Succeeds-create_resources =
        Succeeds-bind _ _ (Succeeds-or_report _ _ _ (Succeeds-create_namespace healthy _)) (λ u1.
          Succeeds-bind _ _ (Succeeds-add_message _) (λ u2.
            Succeeds-bind _ _
              (Succeeds-or_report _ _ _ (Succeeds-create_deployment healthy _ _ _ long))
              (λ u3. Succeeds-add_message _)))

    Succeeds-clean_up_resources : Succeeds env (clean_up_resources c)
    unfolding clean_up_resources
    Succeeds-clean_up_resources = Succeeds-if _ _ _ (Succeeds-add_message _) (
        Succeeds-attempt _ _ _ _ _ (Succeeds-delete_deployment healthy _ _) (
          Succeeds-attempt _ _ _ _ _ (Succeeds-delete_namespace healthy _)
            (Succeeds-error_or_nil l)))

    Succeeds-list_nodes : Succeeds env (list_nodes c)
    unfolding list_nodes
    Succeeds-list_nodes = Returns-Succeeds (
        Returns-call (λ env. env.nodes) _ or_throw
          (λ calls.
            let (names, h) = healthy.lists_nodes calls (Call.list_nodes (node_label c)) in
            Succeeds-Returns (Succeeds-or_throw _ h)))

    Succeeds-run_checks : Succeeds env (run_checks c)
    unfolding run_checks
    Succeeds-run_checks =
        Succeeds-deferred _ _ (Succeeds-report_clean_up _ Succeeds-clean_up_resources)
          Succeeds-create_resources

  pub Succeeds-check : (c : ClusterAutoscaler) → IsLong c.timeout → Succeeds env (check c)
  unfolding check set_replicas
  Succeeds-check c long = Succeeds-bind _ _ (Succeeds-add_message _) (λ u1.
      Succeeds-deferred _ _ (Succeeds-send healthy _) (
        Succeeds-bind _ _ (Succeeds-report_nodes _ (Succeeds-list_nodes c long)) (λ nodes.
          Succeeds-bind _ _ (Succeeds-add_message _)
            (λ u2. Succeeds-run_checks (set_replicas c nodes) long))))

  pub Succeeds-new_cluster_autoscaler :
      (checker : Checker) → Succeeds env (new_cluster_autoscaler checker)
  unfolding new_cluster_autoscaler
  Succeeds-new_cluster_autoscaler checker = Succeeds-bind _ _ (Succeeds-call _ _) (λ t.
      Succeeds-bind _ _ (Succeeds-generate_random_string l 5) (λ s.
        Succeeds-bind _ _ (Succeeds-announce_start healthy _) (λ a.
          Succeeds-bind _ _ (Succeeds-add_message _) (λ b. Succeeds-bind _ _ (Succeeds-ask _) (λ c.
            Succeeds-bind _ _ (Succeeds-ask _) (λ d. Succeeds-bind _ _ (Succeeds-ask _) (λ e.
              Succeeds-bind _ _ (Succeeds-on_error _ _ (Succeeds-new_k8s_clientset healthy))
                (λ f. Succeeds-pure _))))))))
