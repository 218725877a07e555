-- ===== src/ClusterAutoscaler/Objects.antt =====
-- `ClusterAutoscaler`, its constructor and the deployment that it creates.
use kibertas.Prelude.{ℕ, String, ◌<>◌, some, List, [], ◌∷◌}
use kibertas.Go.Errors.{plain, text}
use kibertas.Api.{Deployment, Toleration, ContainerPort, apart_from}
use kibertas.Run.{Action, pure, throw, ◌>>=◌, ◌>>◌, on_error}
use kibertas.Util.{int32, int32_ptr, generate_random_string}
use kibertas.Notify.{add_message}
use kibertas.Config.{new_k8s_clientset}
use kibertas.Cmd.{Checker, now, test_namespace, announce_start, getenv_or}

pub record DeploymentOption : Type 0 where
  pub tolerations : List Toleration

-- `Clientset` is left out.
pub record ClusterAutoscaler : Type 0 where
  pub checker : Checker
  pub open checker use *
  pub namespace : String
  pub resource_name : String
  pub replica_count : ℕ
  pub node_label_key : String
  pub node_label_value : String
  pub deployment_option : DeploymentOption

-- `NewClusterAutoscaler`
unfoldable pub new_cluster_autoscaler : Checker → Action ClusterAutoscaler
new_cluster_autoscaler checker = do
  t ← now
  suffix ← generate_random_string 5
  let namespace = test_namespace "cluster-autoscaler" t suffix
  announce_start checker.cluster_name
  add_message ("cluster-autoscaler check application Namespace: " <> (namespace <> "\n"))
  resource_name ← getenv_or "RESOURCE_NAME" "sample-for-scale"
  node_label_key ← getenv_or "NODE_LABEL_KEY" "eks.amazonaws.com/capacityType"
  node_label_value ← getenv_or "NODE_LABEL_VALUE" "SPOT"
  on_error new_k8s_clientset (λ e. throw (plain ("error NewK8sClientset: " <> text e)))
  pure (record {
    checker = checker;
    namespace = namespace;
    resource_name = resource_name;
    replica_count = 0;
    node_label_key = node_label_key;
    node_label_value = node_label_value;
    deployment_option = record { tolerations = [] };
  })

abbrev http_port : ContainerPort
http_port = record { name = "http"; protocol = "TCP"; container_port = 80 }

unfoldable pub create_deployment_object : ClusterAutoscaler → Deployment
unfolding int32_ptr
create_deployment_object c = record {
  name = c.resource_name;
  replicas = int32_ptr (int32 c.replica_count);
  match_labels = ("app", c.resource_name) ∷ [];
  template = record {
    labels = ("app", c.resource_name) ∷ [];
    tolerations = c.deployment_option.tolerations;
    affinity = some (record {
      node_selector_terms =
          (record { key = c.node_label_key; operator = "In"; values = c.node_label_value ∷ [] }
            ∷ [])
          ∷ [];
      anti_required = apart_from "app" (c.resource_name ∷ []) ∷ [];
      anti_preferred = [];
    });
    containers =
        record { name = "nginx"; image = "nginx:latest"; args = []; ports = http_port ∷ [] } ∷ [];
  };
}
