-- ===== src/K8s/Effects.antt =====
-- What the operations of `K8s` do to the cluster: they stay in their namespace, and they return.
use kibertas.Prelude.{ℕ, String, none, ◌≡◌, refl}
use kibertas.Api.{Call, Deployment, Service, IngressObject}
use kibertas.Run.Adds.{Adds, Adds-bind, adds_rules}
use kibertas.Run.Lives.{Lives, lives_rules}
use kibertas.Scope.{Within, effect_of, posted}
use kibertas.K8s.{
  K8s, create_or_update, create_namespace, delete_namespace, deployment_ready, apply_deployment,
  create_deployment, delete_deployment, create_service, delete_service, ingress_available,
  create_ingress, delete_ingress,
}

module _ {P : Call → Type 0} (create update : Call) (p : P create) (q : P update)
    (not_create : posted (effect_of create) ≡ none)
    (not_update : posted (effect_of update) ≡ none) where
  pub Adds-create_or_update : Adds P (create_or_update create update)
  unfolding create_or_update
  Adds-create_or_update = search adds_rules depth 6

pub create_namespace-Within : (url name : String) → Adds (Within url name) (create_namespace name)
unfolding create_namespace
create_namespace-Within url name = Adds-create_or_update _ _ refl refl refl refl

module _ (url ns : String) where
  abbrev client : K8s
  client = record { namespace = ns }

  pub delete_namespace-Within : Adds (Within url ns) (delete_namespace client)
  unfolding delete_namespace
  delete_namespace-Within = search adds_rules

  apply_deployment-Within : (d : Deployment) → Adds (Within url ns) (apply_deployment client d)
  unfolding apply_deployment
  apply_deployment-Within d = search adds_rules depth 6

  deployment_ready-Within : (name : String) → Adds (Within url ns) (deployment_ready client name)
  unfolding deployment_ready
  deployment_ready-Within name = search (adds_rules, tt) depth 6

  pub create_deployment-Within :
      (d : Deployment) (timeout : ℕ) → Adds (Within url ns) (create_deployment client d timeout)
  unfolding create_deployment
  create_deployment-Within d timeout =
      search (adds_rules, apply_deployment-Within, deployment_ready-Within)

  pub delete_deployment-Within :
      (name : String) → Adds (Within url ns) (delete_deployment client name)
  unfolding delete_deployment
  delete_deployment-Within name = search adds_rules

  pub create_service-Within : (s : Service) → Adds (Within url ns) (create_service client s)
  unfolding create_service
  create_service-Within s = Adds-create_or_update _ _ refl refl refl refl

  pub delete_service-Within : (name : String) → Adds (Within url ns) (delete_service client name)
  unfolding delete_service
  delete_service-Within name = search adds_rules

  ingress_available-Within : (name : String) → Adds (Within url ns) (ingress_available client name)
  unfolding ingress_available
  ingress_available-Within name = search (adds_rules, tt) depth 6

  pub create_ingress-Within :
      (i : IngressObject) (timeout : ℕ) → Adds (Within url ns) (create_ingress client i timeout)
  unfolding create_ingress
  create_ingress-Within i timeout =
      Adds-bind _ _ (Adds-create_or_update _ _ refl refl refl refl)
        (λ _. search (adds_rules, ingress_available-Within) depth 7)

  pub delete_ingress-Within : (name : String) → Adds (Within url ns) (delete_ingress client name)
  unfolding delete_ingress
  delete_ingress-Within name = search adds_rules

-- None of them ends the process.
Lives-create_or_update : (create update : Call) → Lives (create_or_update create update)
unfolding create_or_update
Lives-create_or_update create update = search lives_rules depth 6

pub Lives-create_namespace : (name : String) → Lives (create_namespace name)
unfolding create_namespace
Lives-create_namespace name = Lives-create_or_update _ _

module _ (k : K8s) where
  pub Lives-delete_namespace : Lives (delete_namespace k)
  unfolding delete_namespace
  Lives-delete_namespace = search lives_rules

  Lives-apply_deployment : (d : Deployment) → Lives (apply_deployment k d)
  unfolding apply_deployment
  Lives-apply_deployment d = search lives_rules depth 6

  Lives-deployment_ready : (name : String) → Lives (deployment_ready k name)
  unfolding deployment_ready
  Lives-deployment_ready name = search lives_rules depth 6

  pub Lives-create_deployment :
      (d : Deployment) (timeout : ℕ) → Lives (create_deployment k d timeout)
  unfolding create_deployment
  Lives-create_deployment d timeout =
      search (lives_rules, Lives-apply_deployment, Lives-deployment_ready)

  pub Lives-delete_deployment : (name : String) → Lives (delete_deployment k name)
  unfolding delete_deployment
  Lives-delete_deployment name = search lives_rules

  pub Lives-create_service : (s : Service) → Lives (create_service k s)
  unfolding create_service
  Lives-create_service s = Lives-create_or_update _ _

  pub Lives-delete_service : (name : String) → Lives (delete_service k name)
  unfolding delete_service
  Lives-delete_service name = search lives_rules

  Lives-ingress_available : (name : String) → Lives (ingress_available k name)
  unfolding ingress_available
  Lives-ingress_available name = search lives_rules depth 6

  pub Lives-create_ingress : (i : IngressObject) (timeout : ℕ) → Lives (create_ingress k i timeout)
  unfolding create_ingress
  Lives-create_ingress i timeout =
      search (lives_rules, Lives-create_or_update, Lives-ingress_available) depth 8

  pub Lives-delete_ingress : (name : String) → Lives (delete_ingress k name)
  unfolding delete_ingress
  Lives-delete_ingress name = search lives_rules

pub ruleset k8s_within = (
  create_namespace-Within, delete_namespace-Within, create_deployment-Within,
  delete_deployment-Within, create_service-Within, delete_service-Within, create_ingress-Within,
  delete_ingress-Within,
)

pub ruleset k8s_lives = (
  Lives-create_namespace, Lives-delete_namespace, Lives-create_deployment, Lives-delete_deployment,
  Lives-create_service, Lives-delete_service, Lives-create_ingress, Lives-delete_ingress,
)
