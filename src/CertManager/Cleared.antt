-- ===== src/CertManager/Cleared.antt =====
-- Outside debug mode the cert-manager check leaves nothing in the cluster.
use kibertas.Steps.Plan.{tidied}
use kibertas.Prelude.{Bool, ap, ◌∙◌, false, ◌≡◌, refl}
use kibertas.Run.{Env, IsLawful}
use kibertas.Run.Left.{Clears, Clears-bind, Clears-deferred, Adds-Clears}
use kibertas.Notify.Effects.{Adds-add_message}
use kibertas.Steps.Cleared.{AreDeleted, end, then, Clears-cleaned, Clears-send}
use kibertas.CertManager.Objects.{CertManager, Certificates, create_certificate_object}
use kibertas.CertManager.Owns.{things, run_checks-Owned}
use kibertas.CertManager.Check.{check}
use kibertas.CertManager.CleanUp.{deletions, clean_up_resources_lem}
use kibertas.CertManager.Effects.{Lives-run_checks}

deletions-AreDeleted :
    (c : CertManager) (cert : Certificates) → AreDeleted (deletions c cert) (things c cert)
unfolding deletions
deletions-AreDeleted c cert = then refl (then refl (then refl (then refl end)))

pub check-Clears :
    (c : CertManager) (env : Env) → IsLawful env → c.debug ≡ false → Clears env (check c)
unfolding check
check-Clears c env l mode =
    let cert = create_certificate_object c in
    Clears-bind _ _ (Adds-Clears l (Adds-add_message _)) (λ u.
      Clears-deferred _ _ (Clears-send l _) (
        Clears-cleaned _ _ l (deletions-AreDeleted c cert)
          (λ s.
            clean_up_resources_lem c cert env s
            ∙ ap (λ (b : Bool). tidied b (deletions c cert) env s) mode)
          (run_checks-Owned c cert) (Lives-run_checks c cert)))
