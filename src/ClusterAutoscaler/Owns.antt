-- ===== src/ClusterAutoscaler/Owns.antt =====
-- The two things of a cluster-autoscaler check: what it creates, and nothing else.
use kibertas.Prelude.{List, [], ◌∷◌, refl}
use kibertas.Scope.{Thing, Owned, first, later}
use kibertas.Run.Adds.{Adds, Adds-bind}
use kibertas.Steps.Effects.{Adds-or_report}
use kibertas.Notify.Effects.{Adds-add_message}
use kibertas.K8s.{new_k8s}
use kibertas.K8s.Owns.{create_namespace-Owned, create_deployment-Owned}
use kibertas.ClusterAutoscaler.Objects.{ClusterAutoscaler, create_deployment_object}
use kibertas.ClusterAutoscaler.Check.{create_resources}

-- In the order in which they are deleted.
abbrev pub things : ClusterAutoscaler → List Thing
things c = Thing.deployment c.namespace c.resource_name ∷ Thing.namespace c.namespace ∷ []

module _ (c : ClusterAutoscaler) where
  pub create_resources-Owned : Adds (Owned (things c)) (create_resources c)
  unfolding create_resources new_k8s create_deployment_object
  create_resources-Owned =
      Adds-bind _ _ (Adds-or_report _ _ _ (create_namespace-Owned _ _ (later (first refl)))) (λ u1.
        Adds-bind _ _ (Adds-add_message _) (λ u2.
          Adds-bind _ _ (Adds-or_report _ _ _ (create_deployment-Owned _ _ _ _ (first refl)))
            (λ u3. Adds-add_message _)))
