-- ===== src/ClusterAutoscaler/CleanUp.antt =====
-- The clean-up of the cluster-autoscaler check.
use kibertas.Prelude.{refl, List, [], ◌∷◌, ◌≡◌}
use kibertas.Api.{Call}
use kibertas.Run.{State, Action, Env}
use kibertas.Run.Lives.{Lives}
use kibertas.K8s.{delete_deployment, delete_namespace}
use kibertas.Steps.CleanUp.{Deletion, attempt_all}
use kibertas.Steps.Plan.{tidied, tidied_lem}
use kibertas.ClusterAutoscaler.Objects.{ClusterAutoscaler}
use kibertas.ClusterAutoscaler.Check.{create_resources, clean_up_resources}
use kibertas.ClusterAutoscaler.Effects.{Lives-create_resources}

-- What a clean-up of the cluster-autoscaler check has to delete: the reverse of what is created.
unfoldable pub deletions : ClusterAutoscaler → List Deletion
deletions c =
    record {
      front = "Error Delete Deployment: ";
      back = "";
      deletes = Call.delete_deployment c.namespace c.resource_name;
    }
    ∷ record {
      front = "Error Delete Namespace: ";
      back = "";
      deletes = Call.delete_namespace c.namespace;
    }
    ∷ []

-- In debug mode the clean-up says that it is skipped, and otherwise it tries its deletions in order,
-- whatever they answer.
pub clean_up_resources_lem :
    (c : ClusterAutoscaler) (env : Env) (s : State)
    → clean_up_resources c env s ≡ tidied c.debug (deletions c) env s
unfolding clean_up_resources attempt_all deletions delete_deployment delete_namespace
clean_up_resources_lem c env s = tidied_lem (clean_up_resources c) c.debug (deletions c) env s refl

-- What the clean-up is deferred on.
abbrev pub checked : ClusterAutoscaler → Action (Unit {0})
checked c = create_resources c

pub Lives-checked : (c : ClusterAutoscaler) → Lives (checked c)
Lives-checked c = Lives-create_resources c
