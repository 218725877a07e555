-- ===== src/ClusterAutoscaler/Evidence.antt =====
-- What a successful cluster-autoscaler check has seen.
use kibertas.Run.{Env, IsLawful}
use kibertas.Run.Seen.{Anything, Seen}
use kibertas.Run.Adds.{Adds, adds_rules}
use kibertas.Run.Shows.{Seen-IsObservation, Shows, any_call, Shows-first, Shows-rest}
use kibertas.Notify.Effects.{Adds-add_message}
use kibertas.Steps.Effects.{Adds-or_report, Adds-report_nodes}
use kibertas.Steps.Shows.{Shows-or_report, Shows-cleaned, Shows-sent}
use kibertas.K8s.{new_k8s}
use kibertas.K8s.Effects.{create_namespace-Within}
use kibertas.K8s.Ready.{Ready, create_deployment-Ready}
use kibertas.ClusterAutoscaler.Objects.{ClusterAutoscaler, create_deployment_object}
use kibertas.ClusterAutoscaler.Effects.{clean_up-Within}
use kibertas.ClusterAutoscaler.Check.{create_resources, list_nodes, set_replicas, run_checks, check}

list_nodes-Anything : (c : ClusterAutoscaler) → Adds Anything (list_nodes c)
unfolding list_nodes
list_nodes-Anything c = search (adds_rules, tt)

module _ (env : Env) (l : IsLawful env) where
  create_resources-Ready :
      (c : ClusterAutoscaler)
      → Shows env (Seen (Ready env c.namespace c.resource_name)) (create_resources c)
  unfolding create_resources new_k8s create_deployment_object
  create_resources-Ready c =
      Shows-rest l Seen-IsObservation _ _
        (Adds-or_report _ _ _ (any_call (create_namespace-Within "" _)))
        (λ u. Shows-rest l Seen-IsObservation _ _ (Adds-add_message _) (λ v.
          Shows-first l Seen-IsObservation _ _
            (Shows-or_report _ _ _ (create_deployment-Ready _ _ _ env l))
            (λ w. Adds-add_message _)))

  pub check-Ready :
      (c : ClusterAutoscaler) → Shows env (Seen (Ready env c.namespace c.resource_name)) (check c)
  unfolding check run_checks set_replicas
  check-Ready c = Shows-rest l Seen-IsObservation _ _ (Adds-add_message _) (λ u.
      Shows-sent l Seen-IsObservation _ _ (
        Shows-rest l Seen-IsObservation _ _ (Adds-report_nodes _ (list_nodes-Anything c)) (λ nodes.
          Shows-rest l Seen-IsObservation _ _ (Adds-add_message _) (λ v.
            Shows-cleaned l Seen-IsObservation _ _
              (any_call (clean_up-Within (set_replicas c nodes)))
              (create_resources-Ready (set_replicas c nodes))))))
