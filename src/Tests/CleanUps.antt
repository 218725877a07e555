-- ===== src/Tests/CleanUps.antt =====
-- Successful runs of the fluent and cert-manager checks, and the order of the requests of the latter.
use kibertas.Prelude.{[], ◌≡◌, refl}
use kibertas.Run.{State, ok, ◌>>=◌, poll}
use kibertas.Run.Seen.{Seen}
use kibertas.Notify.{add_message, send}
use kibertas.K8s.{create_namespace, delete_namespace}
use kibertas.Steps.{or_report, attempt, error_or_nil, report_clean_up}
use kibertas.Fluent.Check as Fluent
use kibertas.Fluent.Evidence.{Arrived, object-Seen}
use kibertas.CertManager.Objects.{create_certificate_object}
use kibertas.CertManager.Check.{
  check, run_checks, create_resources, create_cert, clean_up_resources,
}
use kibertas.CertManager.Evidence.{Present, secrets-Seen}
use kibertas.Run.Goes.{Follows}
use kibertas.CertManager.Order.{MaySign, check-Follows}
use kibertas.Tests.World.{calm, calm-IsLawful, start, fluent, certs}

abbrev logged : State
logged = (Fluent.check_s3_object fluent calm start).1

log_arrives : Fluent.check_s3_object fluent calm start ≡ (ok tt, logged)
unfolding Fluent.check_s3_object Fluent.object_available Fluent.read_objects Fluent.find_new_object
    Fluent.new_object poll add_message ◌>>=◌
log_arrives = refl

object-Seen_example : Seen (Arrived calm fluent 100) [] logged.calls
object-Seen_example = object-Seen fluent calm start calm-IsLawful log_arrives

abbrev certified : State
certified = (check certs calm start).1

certs_succeed : check certs calm start ≡ (ok tt, certified)
unfolding check run_checks create_resources create_cert clean_up_resources add_message or_report
    create_namespace report_clean_up attempt delete_namespace error_or_nil send ◌>>=◌
certs_succeed = refl

secrets-Seen_example :
    Seen (Present calm "ns" "sample-tls") [] certified.calls
    × Seen (Present calm "ns" "sample-cert") [] certified.calls
unfolding create_certificate_object
secrets-Seen_example = secrets-Seen certs calm start calm-IsLawful certs_succeed

check-Follows_example :
    Follows
      (MaySign calm certs (create_certificate_object certs))
      []
      (check certs calm start).1.calls
check-Follows_example = check-Follows certs calm start calm-IsLawful
