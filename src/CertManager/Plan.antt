-- ===== src/CertManager/Plan.antt =====
-- The plan of a cert-manager check, and that the check carries it out.
use kibertas.Prelude.{Bool, none, false, List, [], ◌∷◌, ◌∙◌, ap, ◌≡◌}
use kibertas.Run.{State, Env, IsLawful, ◌>>=◌}
use kibertas.Notify.{add_message, api_url, send_request}
use kibertas.Notify.Effects.{calls_sent}
use kibertas.Api.{Call}
use kibertas.Steps.Guarded.{notified}
use kibertas.Steps.CleanUp.{cleaned, reported, issued, calls_reported}
use kibertas.Steps.Plan.{Plan, tidied, carried_out, carried_out_lem}
use kibertas.CertManager.Objects.{CertManager, Certificates, create_certificate_object}
use kibertas.CertManager.Check.{clean_up_resources, run_checks, check}
use kibertas.CertManager.Effects.{Lives-clean_up_resources, Lives-run_checks}
use kibertas.CertManager.CleanUp.{clean_up_resources_lem, deletions, started}

abbrev pub plan : CertManager → Certificates → Plan
plan c cert = record {
  chatwork = c.chatwork;
  debug = c.debug;
  deletions = deletions c cert;
  work = run_checks c cert;
}

-- In a lawful environment, the cert-manager check carries out its plan from where it announced
-- itself: it runs its checks; however they end, it says in debug mode that it deletes nothing, and
-- otherwise does what a clean-up of the certificate, the issuer, the root CA and the namespace
-- promises; it reports an error of that, and sends the messages; and it returns what the checks
-- returned, unless the message has no response, which is a panic.
pub certificates_planned :
    (c : CertManager) (env : Env) (s : State)
    → IsLawful env
    → check c env s ≡ carried_out (plan c (create_certificate_object c)) env (started s)
unfolding check add_message ◌>>=◌
certificates_planned c env s l =
    let cert = create_certificate_object c in
    carried_out_lem (plan c cert) (clean_up_resources c cert) (Lives-run_checks c cert) env l
      (clean_up_resources_lem c cert env) (Lives-clean_up_resources c cert) (started s)

-- In a lawful environment, outside debug mode and if the URL of the message is well-formed, a
-- cert-manager check ends with no message left and with the deletions of the certificate, the
-- issuer, the root CA and the namespace, all four in this order after the calls of the checks, and
-- then the message.
pub certificates_cleaned_up :
    (c : CertManager) (env : Env) (s : State)
    → IsLawful env
    → c.debug ≡ false
    → env.bad_url (api_url c.chatwork) ≡ none
    → let cert = create_certificate_object c in
      let s1 = (run_checks c cert env (started s)).1 in
      let s2 = reported (cleaned env s1 (deletions c cert)) in
      (check c env s).1 ≡ record {
        messages = [];
        calls =
            Call.post_message (send_request c.chatwork s2.messages)
            ∷ Call.delete_namespace c.namespace
            ∷ Call.delete_certificate cert.root_ca
            ∷ Call.delete_issuer cert.issuer
            ∷ Call.delete_certificate cert.certificate
            ∷ s1.calls;
      }
unfolding deletions issued
certificates_cleaned_up c env s l h u =
    let cert = create_certificate_object c in
    let s1 = (run_checks c cert env (started s)).1 in
    let s2 = reported (cleaned env s1 (deletions c cert)) in
    let e : check c env s ≡ notified env c.chatwork (run_checks c cert env (started s)).0 s2 =
      certificates_planned c env s l
      ∙ ap
          (λ (b : Bool).
            notified env c.chatwork (run_checks c cert env (started s)).0
              (reported (tidied b (deletions c cert) env s1)))
          h in
    ap (λ p. p.1) e
    ∙ ap (λ (cs : List Call). record { messages = []; calls = cs })
        (calls_sent env c.chatwork s2 u
          ∙ ap (λ (cs : List Call). Call.post_message (send_request c.chatwork s2.messages) ∷ cs)
              (calls_reported env s1 (deletions c cert)))
