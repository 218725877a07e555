-- ===== src/Ingress/Housed.antt =====
-- The ingress check acts in its namespace while that is there.
use kibertas.Prelude.{refl, true, false, Bool, ◌≡◌}
use kibertas.Scope.{first, later}
use kibertas.Run.{Env, IsLawful}
use kibertas.Run.Adds.{Adds-bind, Adds-map, adds_rules}
use kibertas.Run.Housed.{Adds-Goes, Adds-Aside, There, MayHouse, AllIn, none, also, Owned-Inside}
use kibertas.Run.Goes.{Goes, Goes-bind, Any}
use kibertas.Notify.Effects.{Adds-add_message}
use kibertas.Steps.Effects.{steps_adds, Adds-or_report}
use kibertas.Steps.Housed.{
  Goes-or_report, Goes-delete, Goes-end, Goes-skip, Goes-cleaned, Goes-sent,
}
use kibertas.K8s.{new_k8s}
use kibertas.K8s.Owns.{create_deployment-Owned, create_service-Owned, create_ingress-Owned}
use kibertas.K8s.Housed.{
  create_namespace-Goes, delete_namespace-Goes, delete_deployment-Inside, delete_service-Inside,
  delete_ingress-Inside,
}
use kibertas.Ingress.Objects.{
  Ingress, create_deployment_object, create_service_object, create_ingress_object,
}
use kibertas.Ingress.Owns.{things, check_dns-Owned, check_http-Owned}
use kibertas.Ingress.Check.{create_resources, clean_up_resources, run_checks, check}

module _ {env : Env} (l : IsLawful env) (i : Ingress) where
  things-AllIn : AllIn i.namespace (things i)
  things-AllIn = also refl (also refl (also refl (also refl none)))

  create_resources-Goes : Goes env MayHouse Any (There i.namespace) (create_resources i)
  unfolding create_resources create_deployment_object create_service_object create_ingress_object
      new_k8s
  create_resources-Goes =
      Goes-bind _ _ (λ calls h. h) (Goes-or_report l _ (create_namespace-Goes l i.namespace) _ _)
        (λ u. Adds-Goes l (
          Adds-map (Owned-Inside things-AllIn) (
            Adds-bind _ _
              (Adds-or_report _ _ _ (create_deployment-Owned _ _ _ _ (later (later (first refl)))))
              (λ b.
                Adds-bind _ _
                  (Adds-or_report _ _ _ (create_service-Owned _ _ _ (later (first refl))))
                  (λ c. Adds-or_report _ _ _ (create_ingress-Owned _ _ _ _ (first refl)))))))

  run_checks-Goes : Goes env MayHouse Any (There i.namespace) (run_checks i)
  unfolding run_checks
  run_checks-Goes =
      Goes-bind _ _ (λ calls h. h) create_resources-Goes
        (λ u. Adds-Goes l (
          Adds-map (Owned-Inside things-AllIn)
            (search (adds_rules, steps_adds, check_dns-Owned, check_http-Owned) depth 8)))

  clean_up-Goes :
      (b : Bool) → i.debug ≡ b → Goes env MayHouse (There i.namespace) Any (clean_up_resources i)
  unfolding clean_up_resources
  clean_up-Goes true p = rw p (Goes-skip l _)
  clean_up-Goes false p = rw p (
      Goes-delete l _ _ _ _ _ (delete_ingress-Inside _ _) (λ r1.
        Goes-delete l _ _ _ _ _ (delete_service-Inside _ _) (λ r2.
          Goes-delete l _ _ _ _ _ (delete_deployment-Inside _ _)
            (λ r3. Goes-end l _ _ _ _ (delete_namespace-Goes l _)))))

  pub check-Goes : Goes env MayHouse Any Any (check i)
  unfolding check
  check-Goes =
      Goes-bind _ _ (λ calls h. h) (Adds-Aside l (Adds-add_message _))
        (λ u. Goes-sent l _ _ (Goes-cleaned l _ _ (clean_up-Goes i.debug refl) run_checks-Goes))
