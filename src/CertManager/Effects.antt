-- ===== src/CertManager/Effects.antt =====
-- What the cert-manager check does to the cluster.
use kibertas.Prelude.{String}
use kibertas.Run.{State, Env, IsLawful}
use kibertas.Run.Adds.{Adds-Since, Adds, adds_rules}
use kibertas.Run.Trace.{Since}
use kibertas.Run.Lives.{Lives, lives_rules}
use kibertas.Notify.{api_url}
use kibertas.Scope.{Within}
use kibertas.K8s.Effects.{k8s_within, k8s_lives}
use kibertas.Notify.Effects.{Adds-send}
use kibertas.Steps.Effects.{steps_adds, steps_lives}
use kibertas.CertManager.Objects.{CertManager, Certificates, create_certificate_object}
use kibertas.CertManager.Check.{
  secret_ready, wait_for_secret, create_cert, create_resources, clean_up_resources, run_checks,
  check,
}

module _ (c : CertManager) where
  secret_ready-Within :
      (name : String) → Adds (Within (api_url c.chatwork) c.namespace) (secret_ready c name)
  unfolding secret_ready
  secret_ready-Within name = search (adds_rules, tt) depth 6

  wait_for_secret-Within :
      (name front : String)
      → Adds (Within (api_url c.chatwork) c.namespace) (wait_for_secret c name front)
  unfolding wait_for_secret
  wait_for_secret-Within name front = search (adds_rules, secret_ready-Within)

  create_cert-Within :
      Adds (Within (api_url c.chatwork) c.namespace) (create_cert c (create_certificate_object c))
  unfolding create_cert create_certificate_object
  create_cert-Within = search (adds_rules, steps_adds, wait_for_secret-Within) depth 12

  pub create_resources-Within :
      Adds
        (Within (api_url c.chatwork) c.namespace)
        (create_resources c (create_certificate_object c))
  unfolding create_resources
  create_resources-Within = search (adds_rules, steps_adds, k8s_within, create_cert-Within) depth 9

  pub clean_up-Within :
      Adds
        (Within (api_url c.chatwork) c.namespace)
        (clean_up_resources c (create_certificate_object c))
  unfolding clean_up_resources create_certificate_object
  clean_up-Within = search (adds_rules, steps_adds, k8s_within) depth 9

  run_checks-Within :
      Adds (Within (api_url c.chatwork) c.namespace) (run_checks c (create_certificate_object c))
  unfolding run_checks
  run_checks-Within = search (adds_rules, steps_adds, create_resources-Within) depth 8

  pub check-Within : Adds (Within (api_url c.chatwork) c.namespace) (check c)
  unfolding check
  check-Within =
      search (adds_rules, steps_adds, Adds-send, run_checks-Within, clean_up-Within) depth 9

module _ (c : CertManager) where
  Lives-secret_ready : (name : String) → Lives (secret_ready c name)
  unfolding secret_ready
  Lives-secret_ready name = search lives_rules depth 6

  Lives-wait_for_secret : (name front : String) → Lives (wait_for_secret c name front)
  unfolding wait_for_secret
  Lives-wait_for_secret name front = search (lives_rules, Lives-secret_ready)

  Lives-create_cert : (cert : Certificates) → Lives (create_cert c cert)
  unfolding create_cert
  Lives-create_cert cert = search (lives_rules, steps_lives, Lives-wait_for_secret) depth 12

  pub Lives-create_resources : (cert : Certificates) → Lives (create_resources c cert)
  unfolding create_resources
  Lives-create_resources cert =
      search (lives_rules, steps_lives, k8s_lives, Lives-create_cert) depth 9

  pub Lives-clean_up_resources : (cert : Certificates) → Lives (clean_up_resources c cert)
  unfolding clean_up_resources
  Lives-clean_up_resources cert = search (lives_rules, steps_lives, k8s_lives) depth 9

  pub Lives-run_checks : (cert : Certificates) → Lives (run_checks c cert)
  unfolding run_checks
  Lives-run_checks cert = search (lives_rules, steps_lives, Lives-create_resources) depth 8

-- In a lawful environment, whatever the cert-manager check creates, updates or deletes, in
-- whatever way it ends, is in its own namespace, or is that namespace, and every message goes to
-- the room of its Chatwork.
cert_manager_in_namespace :
    (c : CertManager) (env : Env) (s : State)
    → IsLawful env
    → Since (Within (api_url c.chatwork) c.namespace) s.calls (check c env s).1.calls
cert_manager_in_namespace c env s l = Adds-Since (check-Within c) env l s
