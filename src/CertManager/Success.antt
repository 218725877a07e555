-- ===== src/CertManager/Success.antt =====
-- The cert-manager check succeeds in a healthy environment.
use kibertas.Run.{Env, IsLawful}
use kibertas.Run.Returns.{
  Succeeds, Succeeds-pure, Returns-pure, Returns-call, Succeeds-bind, Succeeds-if,
  Succeeds-on_error, Succeeds-deferred, Succeeds-ask, Succeeds-call, Succeeds-poll,
}
use kibertas.Healthy.{IsLong, IsHealthy}
use kibertas.K8s.Success.{Succeeds-issue, Succeeds-create_namespace, Succeeds-delete_namespace}
use kibertas.Steps.Success.{
  Succeeds-add_message, Succeeds-or_report, Succeeds-report_clean_up, Succeeds-attempt,
  Succeeds-send, Succeeds-announce_start, Succeeds-new_k8s_clientset, Succeeds-new_k8s_client,
  Succeeds-generate_random_string, Succeeds-error_or_nil,
}
use kibertas.Prelude.{arith, String, true, refl}
use kibertas.Api.{Call}
use kibertas.Cmd.{Checker}
use kibertas.CertManager.Objects.{CertManager, Certificates, new_cert_manager}
use kibertas.CertManager.Check.{
  secret_ready, wait_for_secret, create_cert, create_resources, clean_up_resources, run_checks,
  check,
}

module _ {env : Env} (l : IsLawful env) (healthy : IsHealthy env) where
  module _ (c : CertManager) (long : IsLong c.timeout) where
    Succeeds-wait_for_secret : (name front : String) → Succeeds env (wait_for_secret c name front)
    unfolding wait_for_secret secret_ready
    Succeeds-wait_for_secret name front = Succeeds-on_error _ _ (
        Succeeds-poll healthy.patient _ _ _ _ (omega (arith, long.minute_lt)) long.bounded (
          Returns-call (λ env. env.issue) _ _
            (λ calls.
              rw (healthy.issues calls (Call.get_secret c.namespace name))
                (Returns-pure true refl))))

    Succeeds-create_cert : (cert : Certificates) → Succeeds env (create_cert c cert)
    unfolding create_cert
    Succeeds-create_cert cert = Succeeds-bind _ _ (Succeeds-add_message _) (λ u1.
        Succeeds-bind _ _ (Succeeds-issue healthy _) (λ u2.
          Succeeds-bind _ _ (Succeeds-wait_for_secret _ _) (λ u3.
            Succeeds-bind _ _ (Succeeds-add_message _) (λ u4.
              Succeeds-bind _ _ (Succeeds-issue healthy _) (λ u5.
                Succeeds-bind _ _ (Succeeds-add_message _) (λ u6.
                  Succeeds-bind _ _ (Succeeds-issue healthy _)
                    (λ u7. Succeeds-wait_for_secret _ _)))))))

    Succeeds-run_checks : (cert : Certificates) → Succeeds env (run_checks c cert)
    unfolding run_checks create_resources
    Succeeds-run_checks cert =
        Succeeds-bind _ _
          (Succeeds-bind _ _ (Succeeds-or_report _ _ _ (Succeeds-create_namespace healthy _))
            (λ u. Succeeds-or_report _ _ _ (Succeeds-create_cert cert)))
          (λ v. Succeeds-add_message _)

    Succeeds-clean_up_resources : (cert : Certificates) → Succeeds env (clean_up_resources c cert)
    unfolding clean_up_resources
    Succeeds-clean_up_resources cert = Succeeds-if _ _ _ (Succeeds-add_message _) (
        Succeeds-attempt _ _ _ _ _ (Succeeds-issue healthy _) (
          Succeeds-attempt _ _ _ _ _ (Succeeds-issue healthy _) (
            Succeeds-attempt _ _ _ _ _ (Succeeds-issue healthy _) (
              Succeeds-attempt _ _ _ _ _ (Succeeds-delete_namespace healthy _)
                (Succeeds-error_or_nil l)))))

    pub Succeeds-check : Succeeds env (check c)
    unfolding check
    Succeeds-check = Succeeds-bind _ _ (Succeeds-add_message _) (λ u.
        Succeeds-deferred _ _ (Succeeds-send healthy _) (
          Succeeds-deferred _ _ (Succeeds-report_clean_up _ (Succeeds-clean_up_resources _))
            (Succeeds-run_checks _)))

  pub Succeeds-new_cert_manager : (checker : Checker) → Succeeds env (new_cert_manager checker)
  unfolding new_cert_manager
  Succeeds-new_cert_manager checker = Succeeds-bind _ _ (Succeeds-call _ _) (λ t.
      Succeeds-bind _ _ (Succeeds-generate_random_string l 5) (λ s.
        Succeeds-bind _ _ (Succeeds-ask _) (λ a.
          Succeeds-bind _ _ (Succeeds-announce_start healthy _) (λ b.
            Succeeds-bind _ _ (Succeeds-add_message _) (λ c.
              Succeeds-bind _ _ (Succeeds-on_error _ _ (Succeeds-new_k8s_clientset healthy)) (λ d.
                Succeeds-bind _ _ (Succeeds-on_error _ _ (Succeeds-new_k8s_client healthy))
                  (λ e. Succeeds-pure _)))))))
