-- ===== src/CertManager/CleanUp.antt =====
-- The clean-up of the cert-manager check.
use kibertas.Prelude.{refl, List, [], ◌∷◌, ◌++◌, ◌≡◌}
use kibertas.Api.{Call}
use kibertas.Run.{State, Env}
use kibertas.K8s.{delete_namespace}
use kibertas.Steps.CleanUp.{Deletion, attempt_all}
use kibertas.Steps.Plan.{tidied, tidied_lem}
use kibertas.CertManager.Objects.{CertManager, Certificates}
use kibertas.CertManager.Check.{clean_up_resources}

-- What a clean-up of the cert-manager check has to delete: the reverse of what is created.
unfoldable pub deletions : CertManager → Certificates → List Deletion
deletions c cert =
    record {
      front = "Error Delete Certificate: ";
      back = "\n";
      deletes = Call.delete_certificate cert.certificate;
    }
    ∷ record {
      front = "Error Delete Issuer: ";
      back = "\n";
      deletes = Call.delete_issuer cert.issuer;
    }
    ∷ record {
      front = "Error Delete RootCA: ";
      back = "\n";
      deletes = Call.delete_certificate cert.root_ca;
    }
    ∷ record {
      front = "Error Delete Namespace: ";
      back = "\n";
      deletes = Call.delete_namespace c.namespace;
    }
    ∷ []

-- In debug mode the clean-up says that it is skipped, and otherwise it tries its deletions in order,
-- whatever they answer.
pub clean_up_resources_lem :
    (c : CertManager) (cert : Certificates) (env : Env) (s : State)
    → clean_up_resources c cert env s ≡ tidied c.debug (deletions c cert) env s
unfolding clean_up_resources attempt_all deletions delete_namespace
clean_up_resources_lem c cert env s =
    tidied_lem (clean_up_resources c cert) c.debug (deletions c cert) env s refl

-- The state of a run when `Check` has announced itself.
abbrev pub started : State → State
started s = record s { messages = s.messages ++ "cert-manager check start\n" ∷ [] }
