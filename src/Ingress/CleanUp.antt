-- ===== src/Ingress/CleanUp.antt =====
-- The clean-up of the ingress check.
use kibertas.Prelude.{List, [], ◌∷◌, ◌++◌, ◌≡◌, refl}
use kibertas.Api.{Call}
use kibertas.Run.{State, Env}
use kibertas.K8s.{delete_ingress, delete_service, delete_deployment, delete_namespace}
use kibertas.Steps.CleanUp.{Deletion, attempt_all}
use kibertas.Steps.Plan.{tidied, tidied_lem}
use kibertas.Ingress.Objects.{Ingress}
use kibertas.Ingress.Check.{clean_up_resources}

-- What a clean-up of the ingress check has to delete: the reverse of what is created.
unfoldable pub deletions : Ingress → List Deletion
deletions i =
    record {
      front = "Error Delete Ingress: ";
      back = "\n";
      deletes = Call.delete_ingress i.namespace i.resource_name;
    }
    ∷ record {
      front = "Error Delete Service: ";
      back = "\n";
      deletes = Call.delete_service i.namespace i.resource_name;
    }
    ∷ record {
      front = "Error Delete Deployment: ";
      back = "\n";
      deletes = Call.delete_deployment i.namespace i.resource_name;
    }
    ∷ record {
      front = "Error Delete Namespace: ";
      back = "\n";
      deletes = Call.delete_namespace i.namespace;
    }
    ∷ []

-- In debug mode the clean-up of an ingress check adds a message and makes no call; otherwise it
-- tries all four deletions in order, whatever they answer, has a message for every error, and
-- returns what ErrorOrNil makes of them all.
pub clean_up_resources_lem :
    (i : Ingress) (env : Env) (s : State)
    → clean_up_resources i env s ≡ tidied i.debug (deletions i) env s
unfolding clean_up_resources attempt_all deletions delete_ingress delete_service delete_deployment
    delete_namespace
clean_up_resources_lem i env s = tidied_lem (clean_up_resources i) i.debug (deletions i) env s refl

-- The state of a run when `Check` has announced itself.
abbrev pub started : State → State
started s = record s { messages = s.messages ++ "Ingress check start\n" ∷ [] }
