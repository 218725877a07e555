-- ===== src/Ingress/Objects.antt =====
-- `Ingress`, its constructor and the objects that it creates.
use kibertas.Prelude.{String, ◌<>◌, Bool, false, none, some, [], ◌∷◌}
use kibertas.Go.Errors.{plain, text}
use kibertas.Api.{Deployment, Service, IngressObject, ContainerPort}
use kibertas.Run.{Action, pure, throw, ◌>>=◌, ◌>>◌, on_error}
use kibertas.Util.{int32_ptr, generate_random_string}
use kibertas.Notify.{add_message}
use kibertas.Config.{new_k8s_clientset}
use kibertas.Cmd.{Checker, now, test_namespace, announce_start, getenv_or}

-- `Clientset` is left out.
pub record Ingress : Type 0 where
  pub checker : Checker
  pub open checker use *
  pub namespace : String
  pub no_dns_check : Bool
  pub no_http_check : Bool
  pub ingress_class_name : String
  pub resource_name : String
  pub external_hostname : String
  pub http_check_endpoint : String

-- `NewIngress`
unfoldable pub new_ingress : Checker → Bool → Action Ingress
new_ingress checker no_dns_check = do
  t ← now
  suffix ← generate_random_string 5
  let namespace = test_namespace "ingress" t suffix
  announce_start checker.cluster_name
  add_message ("Ingress check application Namespace: " <> (namespace <> "\n"))
  resource_name ← getenv_or "RESOURCE_NAME" "sample"
  external_hostname ← getenv_or "EXTERNAL_HOSTNAME" "example.local"
  ingress_class_name ← getenv_or "INGRESS_CLASS_NAME" "alb"
  on_error new_k8s_clientset (λ e. throw (plain ("error NewK8sClientset: " <> text e)))
  pure (record {
    checker = checker;
    namespace = namespace;
    no_dns_check = no_dns_check;
    no_http_check = false;
    ingress_class_name = ingress_class_name;
    resource_name = resource_name;
    external_hostname = external_hostname;
    http_check_endpoint = "";
  })

abbrev http_port : ContainerPort
http_port = record { name = "http"; protocol = "TCP"; container_port = 80 }

unfoldable pub create_deployment_object : Ingress → Deployment
unfolding int32_ptr
create_deployment_object i = record {
  name = i.resource_name;
  replicas = int32_ptr 1;
  match_labels = ("app", i.resource_name) ∷ [];
  template = record {
    labels = ("app", i.resource_name) ∷ [];
    tolerations = [];
    affinity = none;
    containers =
        record { name = "nginx"; image = "nginx:1.25.2"; args = []; ports = http_port ∷ [] } ∷ [];
  };
}

unfoldable pub create_service_object : Ingress → Service
create_service_object i = record {
  name = i.resource_name;
  selector = ("app", i.resource_name) ∷ [];
  ports = record { protocol = "TCP"; port = 80; target_port = 80 } ∷ [];
}

unfoldable pub create_ingress_object : Ingress → IngressObject
create_ingress_object i = record {
  name = i.resource_name;
  annotations =
      ("alb.ingress.kubernetes.io/backend-protocol", "HTTP")
      ∷ ("alb.ingress.kubernetes.io/connection-idle-timeout", "60")
      ∷ ("alb.ingress.kubernetes.io/healthcheck-interval-seconds", "5")
      ∷ ("alb.ingress.kubernetes.io/healthcheck-protocol", "HTTP")
      ∷ ("alb.ingress.kubernetes.io/healthcheck-timeout-seconds", "2")
      ∷ ("alb.ingress.kubernetes.io/healthy-threshold-count", "2")
      ∷ ("alb.ingress.kubernetes.io/inbound-cidrs", "0.0.0.0/0")
      ∷ ("alb.ingress.kubernetes.io/target-type", "ip")
      ∷ ("external-dns.alpha.kubernetes.io/hostname", i.external_hostname)
      ∷ [];
  ingress_class_name = some i.ingress_class_name;
  rules =
      record {
        host = i.external_hostname;
        paths =
            record {
              path = "/";
              path_type = "ImplementationSpecific";
              service_name = i.resource_name;
              service_port = 80;
            }
            ∷ [];
      }
      ∷ [];
}
