-- ===== src/Fluent/Housed.antt =====
-- The fluent check acts in its namespace while that is there.
use kibertas.Prelude.{refl, true, false, Bool, ◌≡◌}
use kibertas.Scope.{first}
use kibertas.Run.{Env, IsLawful}
use kibertas.Run.Adds.{Adds-bind, Adds-map, adds_rules}
use kibertas.Run.Housed.{Adds-Goes, Adds-Aside, There, MayHouse, AllIn, none, also, Owned-Inside}
use kibertas.Run.Goes.{Goes, Goes-bind, Any}
use kibertas.Notify.Effects.{Adds-add_message}
use kibertas.Steps.Effects.{Adds-or_report, Adds-report_nodes}
use kibertas.Steps.Housed.{
  Goes-or_report, Goes-delete, Goes-end, Goes-skip, Goes-cleaned, Goes-sent,
}
use kibertas.K8s.{new_k8s}
use kibertas.K8s.Owns.{create_deployment-Owned}
use kibertas.K8s.Housed.{create_namespace-Goes, delete_namespace-Goes, delete_deployment-Inside}
use kibertas.Fluent.Objects.{Fluent, create_deployment_object}
use kibertas.Fluent.Owns.{things, check_s3_object-Owned}
use kibertas.Fluent.Check.{
  create_resources, clean_up_resources, list_nodes, set_replicas, run_checks, check,
}
use kibertas.Fluent.CleanUp.{checked}

module _ {env : Env} (l : IsLawful env) where
  module _ (f : Fluent) where
    things-AllIn : AllIn f.namespace (things f)
    things-AllIn = also refl (also refl none)

    create_resources-Goes : Goes env MayHouse Any (There f.namespace) (create_resources f)
    unfolding create_resources create_deployment_object new_k8s
    create_resources-Goes =
        Goes-bind _ _ (λ calls h. h) (Goes-or_report l _ (create_namespace-Goes l f.namespace) _ _)
          (λ u. Adds-Goes l (
            Adds-map (Owned-Inside things-AllIn)
              (Adds-or_report _ _ _ (create_deployment-Owned _ _ _ _ (first refl)))))

    checked-Goes : Goes env MayHouse Any (There f.namespace) (checked f)
    checked-Goes =
        Goes-bind _ _ (λ calls h. h) create_resources-Goes
          (λ u. Adds-Goes l (
            Adds-map (Owned-Inside things-AllIn)
              (Adds-bind _ _ (check_s3_object-Owned f) (λ v. Adds-add_message _))))

    clean_up-Goes :
        (b : Bool) → f.debug ≡ b → Goes env MayHouse (There f.namespace) Any (clean_up_resources f)
    unfolding clean_up_resources
    clean_up-Goes true p = rw p (Goes-skip l _)
    clean_up-Goes false p = rw p (
        Goes-delete l _ _ _ _ _ (delete_deployment-Inside _ _)
          (λ r. Goes-end l _ _ _ _ (delete_namespace-Goes l _)))

    run_checks-Goes : Goes env MayHouse Any Any (run_checks f)
    unfolding run_checks
    run_checks-Goes = Goes-cleaned l _ _ (clean_up-Goes f.debug refl) checked-Goes

  pub check-Goes : (f : Fluent) → Goes env MayHouse Any Any (check f)
  unfolding check list_nodes
  check-Goes f =
      Goes-bind _ _ (λ calls h. h) (Adds-Aside l (Adds-add_message _))
        (λ u. Goes-sent l _ _ (
          Goes-bind _ _ (λ calls h. h) (Adds-Aside l (Adds-report_nodes _ (search adds_rules)))
            (λ nodes.
              Goes-bind _ _ (λ calls h. h) (Adds-Aside l (Adds-add_message _))
                (λ v. run_checks-Goes (set_replicas f nodes)))))
