-- ===== src/CertManager/Debug.antt =====
-- In debug mode the cert-manager check deletes nothing.
use kibertas.Prelude.{true, ◌≡◌}
use kibertas.Scope.{Keeps, Owned-Keeps}
use kibertas.Run.Adds.{Adds, Adds-bind, Adds-deferred, Adds-map}
use kibertas.Notify.Effects.{Adds-add_message, Adds-send}
use kibertas.Steps.Effects.{Adds-report_clean_up}
use kibertas.CertManager.Owns.{things, run_checks-Owned}
use kibertas.CertManager.Objects.{CertManager, Certificates, create_certificate_object}
use kibertas.CertManager.Check.{clean_up_resources, check}

module _ (c : CertManager) (debug : c.debug ≡ true) where
  clean_up-Keeps : (cert : Certificates) → Adds Keeps (clean_up_resources c cert)
  unfolding clean_up_resources
  clean_up-Keeps cert = rw debug (Adds-add_message _)

  pub check-Keeps : Adds Keeps (check c)
  unfolding check
  check-Keeps =
      let cert = create_certificate_object c in
      Adds-bind _ _ (Adds-add_message _) (λ u.
        Adds-deferred _ _ (Adds-send c.chatwork (λ r same. tt)) (
          Adds-deferred _ _ (Adds-report_clean_up _ (clean_up-Keeps cert))
            (Adds-map (Owned-Keeps (things c cert)) (run_checks-Owned c cert))))
