-- ===== src/K8s.antt =====
-- util/k8s/resources.go
pub mod Effects
pub mod Owns
pub mod Housed
pub mod Cancelled
pub mod Success
pub mod Ready
pub mod Apply
use kibertas.Prelude.{ℕ, ◌*◌, String, Bool, false, is_set, any, str_eq, ◌==◌, if◌then◌else◌}
use kibertas.Go.Errors.{Error, wrapped}
use kibertas.Api.{Call, Deployment, Service, IngressObject}
use kibertas.Run.{
  Action, pure, throw, ◌>>=◌, ◌>>◌, on_error, ask, call, or_throw, deref, issue, poll,
}

-- `K8s`, with `clientset` and `logger` left out.
pub record K8s : Type 0 where
  pub namespace : String

-- `NewK8s`
unfoldable pub new_k8s : String → K8s
new_k8s namespace = record { namespace = namespace }

-- `if err != nil && kerrors.IsAlreadyExists(err) { … } else if err != nil { … }` after a create
abbrev pub if_exists : Action (Unit {0}) → (Error → Action (Unit {0})) → Error → Action (Unit {0})
if_exists update other e = do
  exists ← ask (λ env. env.is_already_exists e)
  if exists then update else other e

-- `CreateNamespace`, `CreateService` and the first half of `CreateIngress`: a create, and an update
-- of what is there already.
unfoldable pub create_or_update : Call → Call → Action (Unit {0})
unfolding issue
create_or_update create update = on_error (issue create) (if_exists (issue update) throw)

unfoldable pub create_namespace : String → Action (Unit {0})
unfolding create_or_update
create_namespace name = create_or_update (Call.create_namespace name) (Call.update_namespace name)

unfoldable pub delete_namespace : K8s → Action (Unit {0})
unfolding issue
delete_namespace k = issue (Call.delete_namespace k.namespace)

-- The condition that `CreateDeployment` waits for.
unfoldable pub deployment_ready : K8s → String → Action Bool
deployment_ready k name = do
  reply ← call (λ env. env.deployment) (Call.get_deployment k.namespace name)
  status ← or_throw reply
  replicas ← deref status.replicas
  pure (status.ready_replicas == replicas)

-- The create or update of `CreateDeployment`. An error that is not `AlreadyExists` is logged only.
unfoldable pub apply_deployment : K8s → Deployment → Action (Unit {0})
unfolding issue
apply_deployment k deployment =
    on_error (issue (Call.create_deployment k.namespace deployment))
      (if_exists (issue (Call.update_deployment k.namespace deployment)) (λ e. pure tt))

abbrev pub second : ℕ
second = 1000000000

unfoldable pub create_deployment : K8s → Deployment → ℕ → Action (Unit {0})
unfolding apply_deployment poll deployment_ready
create_deployment k deployment timeout = do
  apply_deployment k deployment
  on_error (poll (5 * second) timeout false (deployment_ready k deployment.name))
      (λ e. throw (wrapped "waiting for Pods to be ready: " e))

unfoldable pub delete_deployment : K8s → String → Action (Unit {0})
unfolding issue
delete_deployment k name = issue (Call.delete_deployment k.namespace name)

unfoldable pub create_service : K8s → Service → Action (Unit {0})
unfolding create_or_update
create_service k service =
    create_or_update (Call.create_service k.namespace service)
      (Call.update_service k.namespace service)

unfoldable pub delete_service : K8s → String → Action (Unit {0})
unfolding issue
delete_service k name = issue (Call.delete_service k.namespace name)

-- The condition that `CreateIngress` waits for: an address with a host name.
unfoldable pub ingress_available : K8s → String → Action Bool
ingress_available k name = do
  reply ← call (λ env. env.hostnames) (Call.get_ingress k.namespace name)
  hostnames ← or_throw reply
  pure (any is_set hostnames)

unfoldable pub create_ingress : K8s → IngressObject → ℕ → Action (Unit {0})
unfolding create_or_update poll ingress_available
create_ingress k ingress timeout = do
  create_or_update (Call.create_ingress k.namespace ingress)
      (Call.update_ingress k.namespace ingress)
  class ← deref ingress.ingress_class_name
  if str_eq class "alb"
      then on_error (poll (5 * second) timeout false (ingress_available k ingress.name))
          (λ e. throw (wrapped "waiting for Ingress to be ready: " e))
      else pure tt

unfoldable pub delete_ingress : K8s → String → Action (Unit {0})
unfolding issue
delete_ingress k name = issue (Call.delete_ingress k.namespace name)
