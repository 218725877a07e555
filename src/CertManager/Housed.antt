-- ===== src/CertManager/Housed.antt =====
-- The cert-manager check acts in its namespace while that is there.
use kibertas.Prelude.{refl, true, false, Bool, ◌≡◌}
use kibertas.Run.{Env, IsLawful}
use kibertas.Run.Adds.{Adds-issue, Adds-map}
use kibertas.Run.Housed.{Adds-Goes, Adds-Aside, There, MayHouse, AllIn, none, also, Owned-Inside}
use kibertas.Run.Goes.{Goes, Goes-bind, Any}
use kibertas.Notify.Effects.{Adds-add_message}
use kibertas.Steps.Effects.{Adds-or_report}
use kibertas.Steps.Housed.{
  Goes-or_report, Goes-delete, Goes-end, Goes-skip, Goes-cleaned, Goes-sent,
}
use kibertas.K8s.Housed.{create_namespace-Goes, delete_namespace-Goes}
use kibertas.CertManager.Objects.{CertManager, create_certificate_object}
use kibertas.CertManager.Owns.{things, create_cert-Owned}
use kibertas.CertManager.Check.{create_resources, clean_up_resources, run_checks, check}

module _ {env : Env} (l : IsLawful env) (c : CertManager) where
  things-AllIn : AllIn c.namespace (things c (create_certificate_object c))
  unfolding create_certificate_object
  things-AllIn = also refl (also refl (also refl (also refl none)))

  create_resources-Goes :
      Goes env MayHouse Any (There c.namespace) (create_resources c (create_certificate_object c))
  unfolding create_resources
  create_resources-Goes =
      Goes-bind _ _ (λ calls h. h) (Goes-or_report l _ (create_namespace-Goes l c.namespace) _ _)
        (λ u.
          Adds-Goes l
            (Adds-map (Owned-Inside things-AllIn) (Adds-or_report _ _ _ (create_cert-Owned c _))))

  run_checks-Goes :
      Goes env MayHouse Any (There c.namespace) (run_checks c (create_certificate_object c))
  unfolding run_checks
  run_checks-Goes =
      Goes-bind _ _ (λ calls h. h) create_resources-Goes (λ u. Adds-Goes l (Adds-add_message _))

  clean_up-Goes :
      (b : Bool)
      → c.debug ≡ b
      → Goes env MayHouse
          (There c.namespace)
          Any
          (clean_up_resources c (create_certificate_object c))
  unfolding clean_up_resources create_certificate_object
  clean_up-Goes true p = rw p (Goes-skip l _)
  clean_up-Goes false p = rw p (
      Goes-delete l _ _ _ _ _ (Adds-issue _ (refl, λ h. cc h) refl) (λ r1.
        Goes-delete l _ _ _ _ _ (Adds-issue _ (refl, λ h. cc h) refl) (λ r2.
          Goes-delete l _ _ _ _ _ (Adds-issue _ (refl, λ h. cc h) refl)
            (λ r3. Goes-end l _ _ _ _ (delete_namespace-Goes l _)))))

  pub check-Goes : Goes env MayHouse Any Any (check c)
  unfolding check
  check-Goes =
      Goes-bind _ _ (λ calls h. h) (Adds-Aside l (Adds-add_message _))
        (λ u. Goes-sent l _ _ (Goes-cleaned l _ _ (clean_up-Goes c.debug refl) run_checks-Goes))
