-- ===== src/CertManager/Check.antt =====
-- The methods of `CertManager` that act: `Check`, and what it calls.
use kibertas.Prelude.{◌*◌, String, ◌<>◌, Bool, true, false, Option, none, some, [], if◌then◌else◌}
use kibertas.Go.Errors.{Error, wrapped}
use kibertas.Api.{Call}
use kibertas.Run.{Action, pure, throw, ◌>>=◌, ◌>>◌, on_error, deferred, call, issue, poll}
use kibertas.Notify.{add_message, send}
use kibertas.K8s
use kibertas.K8s.{second, new_k8s}
use kibertas.Steps.{or_report, attempt, error_or_nil, report_clean_up}
use kibertas.CertManager.Objects.{CertManager, Certificates, create_certificate_object}

-- What the polls make of the error of `secretClient.Get`.
abbrev pub is_there : Option Error → Bool
is_there none = true
is_there (some e) = false

-- The condition of both polls of `createCert`: the secret is there.
unfoldable pub secret_ready : CertManager → String → Action Bool
secret_ready c name = do
  e ← call (λ env. env.issue) (Call.get_secret c.namespace name)
  pure (is_there e)

unfoldable pub wait_for_secret : CertManager → String → String → Action (Unit {0})
unfolding poll secret_ready
wait_for_secret c name front =
    on_error (poll (5 * second) c.timeout true (secret_ready c name)) (λ e. throw (wrapped front e))

unfoldable pub create_cert : CertManager → Certificates → Action (Unit {0})
unfolding issue wait_for_secret
create_cert c cert = do
  add_message ("Create RootCA: " <> (cert.root_ca.name <> "\n"))
  issue (Call.create_certificate cert.root_ca)
  wait_for_secret c cert.root_ca.secret_name "waiting for RootCA secret to be ready: "
  add_message ("Create Issuer: " <> (cert.issuer.name <> "\n"))
  issue (Call.create_issuer cert.issuer)
  add_message ("Create Certificate: " <> (cert.certificate.name <> "\n"))
  issue (Call.create_certificate cert.certificate)
  wait_for_secret c cert.certificate.secret_name "waiting for Certificate Secret to be ready: "

unfoldable pub create_resources : CertManager → Certificates → Action (Unit {0})
create_resources c cert = do
  or_report "Error create Namespace:" "" (K8s.create_namespace c.namespace)
  or_report "Error create certificate:" "" (create_cert c cert)

unfoldable pub clean_up_resources : CertManager → Certificates → Action (Unit {0})
unfolding new_k8s
clean_up_resources c cert = if c.debug then add_message "Skip Delete Resources\n" else do
  let k = new_k8s c.namespace
  r ←
      attempt "Error Delete Certificate: " "\n" (issue (Call.delete_certificate cert.certificate))
        []
  r ← attempt "Error Delete Issuer: " "\n" (issue (Call.delete_issuer cert.issuer)) r
  r ← attempt "Error Delete RootCA: " "\n" (issue (Call.delete_certificate cert.root_ca)) r
  r ← attempt "Error Delete Namespace: " "\n" (K8s.delete_namespace k) r
  error_or_nil r

-- `Check`, behind its deferred calls.
unfoldable pub run_checks : CertManager → Certificates → Action (Unit {0})
run_checks c cert = do create_resources c cert; add_message "cert-manager check finished\n"

unfoldable pub check : CertManager → Action (Unit {0})
check c = do
  let cert = create_certificate_object c
  add_message "cert-manager check start\n"
  deferred (send c.chatwork)
      (deferred (report_clean_up (clean_up_resources c cert)) (run_checks c cert))
