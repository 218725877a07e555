-- ===== src/Tests/Checks.antt =====
-- Runs of the other checks.
use kibertas.Prelude.{
  ℕ, ◌*◌, ◌≤◌, ◌<◌, String, none, some, [], ◌∷◌, ◌≡◌, ◌≢◌, refl, ◌∙◌, str_eq_iff, arith,
}
use mathlib.Core.List.{Subset, Nodup, Pairwise, eq-or-mem_of_mem-cons, not-mem-nil}
use mathlib.Core.Logic.Or
use mathlib.Core.HLevel.{⊥_prop}
use kibertas.Go.Errors.{library}
use kibertas.Api.{Call, MetricsReply}
use kibertas.Run.{State}
use kibertas.Notify.{send_request}
use kibertas.Steps.CleanUp.{cleaned, reported}
use kibertas.Fluent.Objects as FluentObjects
use kibertas.Fluent.Check as Fluent
use kibertas.Fluent.Sizing.{one_for_three}
use kibertas.ClusterAutoscaler.Objects as ScalerObjects
use kibertas.ClusterAutoscaler.Check as Scaler
use kibertas.ClusterAutoscaler.Capacity.{RunsOn, needs_new_node}
use kibertas.CertManager.Objects as CertsObjects
use kibertas.CertManager.Check as Certs
use kibertas.CertManager.CleanUp.{started, deletions}
use kibertas.CertManager.Plan.{certificates_cleaned_up}
use kibertas.CertManager.Chain.{IssuedBy, SignsWith, certificates_chain}
use kibertas.DatadogAgent.Check.{read_metrics}
use kibertas.DatadogAgent.Reading.{verdict, carried_out, read_metrics-verdict}
use kibertas.Tests.World.{fluent, scaler, certs, calm, calm-IsLawful, start, chatwork}

one_for_three_example :
    (r : ℕ) × ((FluentObjects.create_deployment_object
        (Fluent.set_replicas fluent ("a" ∷ "b" ∷ "c" ∷ []))).replicas
      ≡ some r)
    × (3 < 3 * r)
    × (3 * r ≤ 6)
one_for_three_example = one_for_three fluent ("a" ∷ "b" ∷ "c" ∷ []) (omega arith)

abbrev issued : CertsObjects.Certificates
issued = CertsObjects.create_certificate_object certs

certificates_chain_example :
    IssuedBy issued.certificate issued.issuer
    × SignsWith issued.issuer issued.root_ca
    × (issued.certificate.secret_name ≢ issued.root_ca.secret_name)
    × (issued.certificate.name ≢ issued.root_ca.name)
certificates_chain_example = certificates_chain certs

abbrev checked_certs : State
checked_certs = (Certs.run_checks certs issued calm (started start)).1

certificates_cleaned_up_example : (Certs.check certs calm start).1 ≡ record {
  messages = [];
  calls =
      Call.post_message (
        send_request chatwork
          (reported (cleaned calm checked_certs (deletions certs issued))).messages)
      ∷ Call.delete_namespace "ns"
      ∷ Call.delete_certificate issued.root_ca
      ∷ Call.delete_issuer issued.issuer
      ∷ Call.delete_certificate issued.certificate
      ∷ checked_certs.calls;
}
certificates_cleaned_up_example = certificates_cleaned_up certs calm start calm-IsLawful refl refl

abbrev forbidden : MetricsReply
forbidden = record {
  error = some (library 4 "403");
  status_code = some 403;
  api_error = none;
  series = [];
}

read_metrics-verdict_example :
    read_metrics forbidden calm start ≡ carried_out (verdict forbidden) start
read_metrics-verdict_example = read_metrics-verdict forbidden calm start

new-ne-a : ◌≢◌ {A = String} "new" "a"
new-ne-a = ground (arith, str_eq_iff "new" "a")

two_hosts-Nodup : Nodup {A = String} ("new" ∷ "a" ∷ [])
two_hosts-Nodup =
    Pairwise.cons
      (λ x m e. Or.elim ⊥_prop (eq-or-mem_of_mem-cons m) (λ q. new-ne-a (e ∙ q)) not-mem-nil)
      (Pairwise.cons (λ x m. absurd (not-mem-nil m)) Pairwise.nil)

-- the two replicas for one node, on that and on a new one
RunsOn-two :
    RunsOn
      (ScalerObjects.create_deployment_object (Scaler.set_replicas scaler ("a" ∷ [])))
      ("new" ∷ "a" ∷ [])
unfolding ScalerObjects.create_deployment_object Scaler.set_replicas
RunsOn-two = record { one_each = refl; apart = λ h. two_hosts-Nodup }

needs_new_node_example : ¬ (Subset {A = String} ("new" ∷ "a" ∷ []) ("a" ∷ []))
needs_new_node_example =
    needs_new_node scaler ("a" ∷ []) ("new" ∷ "a" ∷ []) (omega arith) RunsOn-two
