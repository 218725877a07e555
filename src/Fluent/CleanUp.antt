-- ===== src/Fluent/CleanUp.antt =====
-- The clean-up of the fluent check.
use kibertas.Prelude.{refl, List, [], ◌∷◌, ◌≡◌}
use kibertas.Api.{Call}
use kibertas.Run.{State, Action, Env, ◌>>◌}
use kibertas.Run.Lives.{Lives, lives_rules}
use kibertas.Notify.{add_message}
use kibertas.K8s.{delete_deployment, delete_namespace}
use kibertas.Steps.Effects.{steps_lives}
use kibertas.Steps.CleanUp.{Deletion, attempt_all}
use kibertas.Steps.Plan.{tidied, tidied_lem}
use kibertas.Fluent.Objects.{Fluent}
use kibertas.Fluent.Check.{create_resources, clean_up_resources, check_s3_object}
use kibertas.Fluent.Effects.{Lives-create_resources, Lives-check_s3_object}

-- What a clean-up of the fluent check has to delete: the reverse of what is created.
unfoldable pub deletions : Fluent → List Deletion
deletions f =
    record {
      front = "Error Delete Deployment: ";
      back = "";
      deletes = Call.delete_deployment f.namespace f.resource_name;
    }
    ∷ record {
      front = "Error Delete Namespace: ";
      back = "";
      deletes = Call.delete_namespace f.namespace;
    }
    ∷ []

-- In debug mode the clean-up says that it is skipped, and otherwise it tries its deletions in order,
-- whatever they answer.
pub clean_up_resources_lem :
    (f : Fluent) (env : Env) (s : State)
    → clean_up_resources f env s ≡ tidied f.debug (deletions f) env s
unfolding clean_up_resources attempt_all deletions delete_deployment delete_namespace
clean_up_resources_lem f env s = tidied_lem (clean_up_resources f) f.debug (deletions f) env s refl

-- What the clean-up is deferred on.
abbrev pub checked : Fluent → Action (Unit {0})
checked f = do create_resources f; check_s3_object f; add_message "fluent check finished\n"

pub Lives-checked : (f : Fluent) → Lives (checked f)
Lives-checked f =
    search (lives_rules, steps_lives, Lives-create_resources, Lives-check_s3_object) depth 8
