-- ===== src/Fluent/Owns.antt =====
-- The two things of a fluent check: what it creates, and nothing else.
use kibertas.Prelude.{List, [], ◌∷◌, ℕ, refl}
use kibertas.Scope.{Thing, Owned, first, later}
use kibertas.Run.Adds.{Adds, Adds-bind, adds_rules}
use kibertas.Steps.Effects.{Adds-or_report}
use kibertas.Notify.Effects.{Adds-add_message}
use kibertas.K8s.{new_k8s}
use kibertas.K8s.Owns.{create_namespace-Owned, create_deployment-Owned}
use kibertas.Fluent.Effects.{Adds-read_objects}
use kibertas.Fluent.Objects.{Fluent, create_deployment_object}
use kibertas.Fluent.Check.{create_resources, object_available, check_s3_object}
use kibertas.Fluent.CleanUp.{checked}

-- In the order in which they are deleted.
abbrev pub things : Fluent → List Thing
things f = Thing.deployment f.namespace f.resource_name ∷ Thing.namespace f.namespace ∷ []

module _ (f : Fluent) where
  create_resources-Owned : Adds (Owned (things f)) (create_resources f)
  unfolding create_resources new_k8s create_deployment_object
  create_resources-Owned =
      Adds-bind _ _ (Adds-or_report _ _ _ (create_namespace-Owned _ _ (later (first refl))))
        (λ u. Adds-or_report _ _ _ (create_deployment-Owned _ _ _ _ (first refl)))

  object_available-Owned : (since : ℕ) → Adds (Owned (things f)) (object_available f since)
  unfolding object_available
  object_available-Owned since =
      search (adds_rules, Adds-read_objects (Owned (things f)) f since, tt) depth 6

  pub check_s3_object-Owned : Adds (Owned (things f)) (check_s3_object f)
  unfolding check_s3_object
  check_s3_object-Owned = search (adds_rules, object_available-Owned, tt) depth 7

  pub checked-Owned : Adds (Owned (things f)) (checked f)
  checked-Owned =
      Adds-bind _ _ create_resources-Owned
        (λ u. Adds-bind _ _ check_s3_object-Owned (λ v. Adds-add_message _))
