-- ===== src/K8s/Owns.antt =====
-- The operations that create a resource create and update that resource only.
use kibertas.Prelude.{ℕ, String, List, refl}
use kibertas.Api.{Deployment, Service, IngressObject}
use kibertas.Scope.{Thing, Among, Owned}
use kibertas.Run.Adds.{Adds, Adds-bind, adds_rules}
use kibertas.K8s.Effects.{Adds-create_or_update}
use kibertas.K8s.{
  K8s, create_namespace, deployment_ready, apply_deployment, create_deployment, create_service,
  ingress_available, create_ingress,
}

module _ (things : List Thing) where
  pub create_namespace-Owned :
      (name : String)
      → Among (Thing.namespace name) things
      → Adds (Owned things) (create_namespace name)
  unfolding create_namespace
  create_namespace-Owned name among = Adds-create_or_update _ _ among among refl refl

  module _ (k : K8s) where
    deployment_ready-Owned : (name : String) → Adds (Owned things) (deployment_ready k name)
    unfolding deployment_ready
    deployment_ready-Owned name = search (adds_rules, tt) depth 6

    apply_deployment-Owned :
        (d : Deployment)
        → Among (Thing.deployment k.namespace d.name) things
        → Adds (Owned things) (apply_deployment k d)
    unfolding apply_deployment
    apply_deployment-Owned d among = search (adds_rules, among) depth 6

    pub create_deployment-Owned :
        (d : Deployment) (timeout : ℕ)
        → Among (Thing.deployment k.namespace d.name) things
        → Adds (Owned things) (create_deployment k d timeout)
    unfolding create_deployment
    create_deployment-Owned d timeout among =
        Adds-bind _ _ (apply_deployment-Owned d among)
          (λ _. search (adds_rules, deployment_ready-Owned) depth 7)

    pub create_service-Owned :
        (s : Service)
        → Among (Thing.service k.namespace s.name) things
        → Adds (Owned things) (create_service k s)
    unfolding create_service
    create_service-Owned s among = Adds-create_or_update _ _ among among refl refl

    ingress_available-Owned : (name : String) → Adds (Owned things) (ingress_available k name)
    unfolding ingress_available
    ingress_available-Owned name = search (adds_rules, tt) depth 6

    pub create_ingress-Owned :
        (i : IngressObject) (timeout : ℕ)
        → Among (Thing.ingress k.namespace i.name) things
        → Adds (Owned things) (create_ingress k i timeout)
    unfolding create_ingress
    create_ingress-Owned i timeout among =
        Adds-bind _ _ (Adds-create_or_update _ _ among among refl refl)
          (λ _. search (adds_rules, ingress_available-Owned) depth 7)
