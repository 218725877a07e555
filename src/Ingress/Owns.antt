-- ===== src/Ingress/Owns.antt =====
-- The four things of an ingress check: what it creates, and nothing else.
use kibertas.Prelude.{List, [], ◌∷◌, refl}
use kibertas.Scope.{Thing, Owned, first, later}
use kibertas.Run.Adds.{Adds, Adds-bind, adds_rules}
use kibertas.Steps.Effects.{steps_adds, Adds-or_report}
use kibertas.K8s.{new_k8s}
use kibertas.K8s.Owns.{
  create_namespace-Owned, create_deployment-Owned, create_service-Owned, create_ingress-Owned,
}
use kibertas.Ingress.Effects.{Adds-read_records, Adds-read_status}
use kibertas.Ingress.Objects.{
  Ingress, create_deployment_object, create_service_object, create_ingress_object,
}
use kibertas.Ingress.Check.{
  create_resources, record_available, check_dns_record, service_available, check_http, run_checks,
}

-- In the order in which they are deleted.
abbrev pub things : Ingress → List Thing
things i =
    Thing.ingress i.namespace i.resource_name
    ∷ Thing.service i.namespace i.resource_name
    ∷ Thing.deployment i.namespace i.resource_name
    ∷ Thing.namespace i.namespace
    ∷ []

module _ (i : Ingress) where
  create_resources-Owned : Adds (Owned (things i)) (create_resources i)
  unfolding create_resources new_k8s create_deployment_object create_service_object
      create_ingress_object
  create_resources-Owned =
      Adds-bind _ _
        (Adds-or_report _ _ _ (create_namespace-Owned _ _ (later (later (later (first refl))))))
        (λ a.
          Adds-bind _ _
            (Adds-or_report _ _ _ (create_deployment-Owned _ _ _ _ (later (later (first refl)))))
            (λ b.
              Adds-bind _ _ (Adds-or_report _ _ _ (create_service-Owned _ _ _ (later (first refl))))
                (λ c. Adds-or_report _ _ _ (create_ingress-Owned _ _ _ _ (first refl)))))

  pub check_dns-Owned : Adds (Owned (things i)) (check_dns_record i)
  unfolding check_dns_record record_available
  check_dns-Owned = search (adds_rules, Adds-read_records, tt) depth 9

  pub check_http-Owned : Adds (Owned (things i)) (check_http i)
  unfolding check_http service_available
  check_http-Owned = search (adds_rules, Adds-read_status) depth 11

  pub run_checks-Owned : Adds (Owned (things i)) (run_checks i)
  unfolding run_checks
  run_checks-Owned =
      search (adds_rules, steps_adds, create_resources-Owned, check_dns-Owned, check_http-Owned)
        depth 8
