-- ===== src/ClusterAutoscaler/Check.antt =====
-- The methods of `ClusterAutoscaler` that act: `Check`, and what it calls.
use kibertas.Prelude.{◌+◌, String, ◌<>◌, List, [], length, if◌then◌else◌}
use kibertas.Go.Format.{decimal}
use kibertas.Api.{Call}
use kibertas.Run.{Action, ◌>>=◌, ◌>>◌, deferred, call, or_throw}
use kibertas.Notify.{add_message, send}
use kibertas.K8s
use kibertas.K8s.{new_k8s}
use kibertas.Steps.{report_nodes, or_report, attempt, error_or_nil, report_clean_up}
use kibertas.ClusterAutoscaler.Objects.{ClusterAutoscaler, create_deployment_object}

unfoldable pub create_resources : ClusterAutoscaler → Action (Unit {0})
unfolding new_k8s
create_resources c = do
  let k = new_k8s c.namespace
  or_report "Error Create Namespace: " "\n" (K8s.create_namespace c.namespace)
  add_message ("Create Deployment with desire replicas " <> (decimal c.replica_count <> "\n"))
  or_report "Error Create Deployment: " "\n"
      (K8s.create_deployment k (create_deployment_object c) c.timeout)
  add_message "cluster-autoscaler check finished\n"

unfoldable pub clean_up_resources : ClusterAutoscaler → Action (Unit {0})
unfolding new_k8s
clean_up_resources c = if c.debug then add_message "Skip Delete Resources\n" else do
  let k = new_k8s c.namespace
  r ← attempt "Error Delete Deployment: " "" (K8s.delete_deployment k c.resource_name) []
  r ← attempt "Error Delete Namespace: " "" (K8s.delete_namespace k) r
  error_or_nil r

-- `fmt.Sprintf("%s=%s", c.NodeLabelKey, c.NodeLabelValue)`
abbrev pub node_label : ClusterAutoscaler → String
node_label c = c.node_label_key <> ("=" <> c.node_label_value)

unfoldable pub list_nodes : ClusterAutoscaler → Action (List String)
list_nodes c = do reply ← call (λ env. env.nodes) (Call.list_nodes (node_label c)); or_throw reply

-- `c.ReplicaCount = len(nodes.Items) + 1`
unfoldable pub set_replicas : ClusterAutoscaler → List String → ClusterAutoscaler
set_replicas c nodes = record c { replica_count = length nodes + 1 }

-- `Check`, from the clean-up that it defers on.
unfoldable pub run_checks : ClusterAutoscaler → Action (Unit {0})
run_checks c = deferred (report_clean_up (clean_up_resources c)) (create_resources c)

unfoldable pub check : ClusterAutoscaler → Action (Unit {0})
check c = do
  add_message "cluster-autoscaler check start\n"
  deferred (send c.chatwork) (do
    nodes ← report_nodes (list_nodes c)
    let c' = set_replicas c nodes
    add_message
        ("Nodes(have label: " <> (node_label c <> ("): " <> (decimal (length nodes) <> "\n"))))
    run_checks c')
