-- ===== src/Tests/Plans.antt =====
-- Checks whose nodes are listed, or cannot be, and their plans.
use kibertas.Prelude.{◌≡◌, refl}
use kibertas.Go.Errors.{library}
use kibertas.Api.{refused}
use kibertas.Run.{Env, IsLawful}
use kibertas.Steps.Plan.{carried_out, counted}
use kibertas.Fluent.Check as Fluent
use kibertas.Fluent.Plan as FluentPlan
use kibertas.ClusterAutoscaler.Check as Scaler
use kibertas.ClusterAutoscaler.Plan as ScalerPlan
use kibertas.CertManager.Objects.{create_certificate_object}
use kibertas.CertManager.Check as Certs
use kibertas.CertManager.CleanUp as CertsCleanUp
use kibertas.CertManager.Plan as CertsPlan
use kibertas.Tests.World.{fluent, certs, calm, calm-IsLawful, start, chatwork}

abbrev hidden : Env
hidden = record calm { nodes = λ calls c. refused (library 3 "nodes is forbidden") }

hidden-IsLawful : IsLawful hidden
hidden-IsLawful = record {
  polls = calm-IsLawful.polls;
  no_errors = refl;
  some_errors = calm-IsLawful.some_errors;
  intn_lt = calm-IsLawful.intn_lt;
}

fluent_planned_example :
    Fluent.check fluent hidden start
    ≡ counted chatwork "eks.amazonaws.com/capacityType=SPOT"
        (λ nodes. FluentPlan.plan (Fluent.set_replicas fluent nodes))
        (FluentPlan.announced fluent)
        hidden
        (FluentPlan.started start)
fluent_planned_example = FluentPlan.fluent_planned fluent hidden start hidden-IsLawful

certificates_planned_example :
    Certs.check certs calm start
    ≡ carried_out
        (CertsPlan.plan certs (create_certificate_object certs))
        calm
        (CertsCleanUp.started start)
certificates_planned_example = CertsPlan.certificates_planned certs calm start calm-IsLawful
