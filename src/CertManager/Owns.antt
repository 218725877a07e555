-- ===== src/CertManager/Owns.antt =====
-- The four things of a cert-manager check: what it creates, and nothing else.
use kibertas.Prelude.{List, [], ◌∷◌, String, refl}
use kibertas.Scope.{Thing, Owned, first, later}
use kibertas.Run.Adds.{Adds, Adds-bind, Adds-issue, adds_rules}
use kibertas.Steps.Effects.{Adds-or_report}
use kibertas.Notify.Effects.{Adds-add_message}
use kibertas.K8s.Owns.{create_namespace-Owned}
use kibertas.CertManager.Objects.{CertManager, Certificates}
use kibertas.CertManager.Check.{
  secret_ready, wait_for_secret, create_cert, create_resources, run_checks,
}

-- In the order in which they are deleted.
abbrev pub things : CertManager → Certificates → List Thing
things c cert =
    Thing.certificate cert.certificate.namespace cert.certificate.name
    ∷ Thing.issuer cert.issuer.namespace cert.issuer.name
    ∷ Thing.certificate cert.root_ca.namespace cert.root_ca.name
    ∷ Thing.namespace c.namespace
    ∷ []

module _ (c : CertManager) (cert : Certificates) where
  wait_for_secret-Owned :
      (name front : String) → Adds (Owned (things c cert)) (wait_for_secret c name front)
  unfolding wait_for_secret secret_ready
  wait_for_secret-Owned name front = search (adds_rules, tt) depth 9

  pub create_cert-Owned : Adds (Owned (things c cert)) (create_cert c cert)
  unfolding create_cert
  create_cert-Owned = Adds-bind _ _ (Adds-add_message _) (λ u1.
      Adds-bind _ _ (Adds-issue _ (later (later (first refl))) refl) (λ u2.
        Adds-bind _ _ (wait_for_secret-Owned _ _) (λ u3. Adds-bind _ _ (Adds-add_message _) (λ u4.
          Adds-bind _ _ (Adds-issue _ (later (first refl)) refl) (λ u5.
            Adds-bind _ _ (Adds-add_message _) (λ u6.
              Adds-bind _ _ (Adds-issue _ (first refl) refl) (λ u7. wait_for_secret-Owned _ _)))))))

  pub run_checks-Owned : Adds (Owned (things c cert)) (run_checks c cert)
  unfolding run_checks create_resources
  run_checks-Owned =
      Adds-bind _ _
        (Adds-bind _ _
          (Adds-or_report _ _ _ (create_namespace-Owned _ _ (later (later (later (first refl))))))
          (λ u. Adds-or_report _ _ _ create_cert-Owned))
        (λ v. Adds-add_message _)
