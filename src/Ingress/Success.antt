-- ===== src/Ingress/Success.antt =====
-- The ingress check succeeds in a healthy environment.
use kibertas.Run.{Env, IsLawful}
use kibertas.Run.Returns.{
  Returns, Succeeds, Succeeds-pure, Returns-pure, Returns-call, Returns-ask, Returns-skip,
  Succeeds-bind, Succeeds-if, Succeeds-on_error, Succeeds-deferred, Succeeds-ask, Succeeds-call,
  Succeeds-poll, Succeeds-check_nil,
}
use kibertas.Healthy.{IsLong, IsHealthy, HasAddress, here, later}
use kibertas.K8s.Success.{
  Succeeds-create_namespace, Succeeds-create_deployment, Succeeds-create_service,
  Succeeds-create_ingress, Succeeds-delete_deployment, Succeeds-delete_namespace,
  Succeeds-delete_service, Succeeds-delete_ingress,
}
use kibertas.Steps.Success.{
  Succeeds-add_message, Succeeds-or_report, Succeeds-report_clean_up, Succeeds-attempt,
  Succeeds-send, Succeeds-announce_start, Succeeds-new_k8s_clientset,
  Succeeds-generate_random_string, Succeeds-error_or_nil,
}
use kibertas.Prelude.{arith, String, Bool, true, some, List, ◌≡◌, refl}
use kibertas.Api.{Call, answer, Rr, a_record, other_record}
use kibertas.Cmd.{Checker}
use kibertas.Ingress.Objects.{Ingress, new_ingress, create_ingress_object}
use kibertas.Ingress.Check.{
  create_resources, clean_up_resources, first_address, found_address, read_records,
  record_available, check_dns_record, read_status, endpoint, service_available, check_http,
  run_checks, check,
}

first_address-some : {rs : List Rr} → HasAddress rs → (a : String) × (first_address rs ≡ some a)
unfolding first_address
first_address-some (here {a}) = (a, refl)
first_address-some (later {r = a_record a} h) = (a, refl)
first_address-some (later {r = other_record} h) = first_address-some h

module _ {env : Env} (l : IsLawful env) (healthy : IsHealthy env) where
  module _ (i : Ingress) (long : IsLong i.timeout) where
    Succeeds-create_resources : Succeeds env (create_resources i)
    unfolding create_resources create_ingress_object
    Succeeds-create_resources =
        Succeeds-bind _ _ (Succeeds-or_report _ _ _ (Succeeds-create_namespace healthy _)) (λ a.
          Succeeds-bind _ _
            (Succeeds-or_report _ _ _ (Succeeds-create_deployment healthy _ _ _ long))
            (λ b.
              Succeeds-bind _ _ (Succeeds-or_report _ _ _ (Succeeds-create_service healthy _ _))
                (λ c.
                  Succeeds-or_report _ _ _ (Succeeds-create_ingress healthy _ _ _ _ refl long))))

    Succeeds-clean_up_resources : Succeeds env (clean_up_resources i)
    unfolding clean_up_resources
    Succeeds-clean_up_resources = Succeeds-if _ _ _ (Succeeds-add_message _) (
        Succeeds-attempt _ _ _ _ _ (Succeeds-delete_ingress healthy _ _) (
          Succeeds-attempt _ _ _ _ _ (Succeeds-delete_service healthy _ _) (
            Succeeds-attempt _ _ _ _ _ (Succeeds-delete_deployment healthy _ _) (
              Succeeds-attempt _ _ _ _ _ (Succeeds-delete_namespace healthy _)
                (Succeeds-error_or_nil l)))))

    Returns-found_address : (a : String) → Returns env (λ b. b ≡ true) (found_address (some a))
    unfolding found_address
    Returns-found_address a =
        Returns-skip _ _ (Succeeds-add_message _) (λ u. Returns-pure true refl)

    Returns-read_records :
        (rs : List Rr) → HasAddress rs → Returns env (λ b. b ≡ true) (read_records (answer rs))
    unfolding read_records
    Returns-read_records rs h = let (a, p) = first_address-some h in rw p (Returns-found_address a)

    Succeeds-check_dns_record : Succeeds env (check_dns_record i)
    unfolding check_dns_record record_available
    Succeeds-check_dns_record = Succeeds-on_error _ _ (
        Succeeds-poll healthy.patient _ _ _ _ (omega (arith, long.minute_lt)) long.bounded (
          Returns-ask _ _ (
            Returns-call (λ env. env.records) _ _
              (λ calls.
                let (rs, p, h) =
                  healthy.resolves calls
                    (Call.exchange (env.fqdn i.external_hostname) "8.8.8.8:53") in
                rw p (Returns-read_records rs h)))))

    Returns-read_status : Returns env (λ b. b ≡ true) (read_status (answer 200))
    unfolding read_status
    Returns-read_status = Returns-skip _ _ (Succeeds-add_message _) (λ u. Returns-pure true refl)

    Succeeds-check_http : Succeeds env (check_http i)
    unfolding check_http service_available
    Succeeds-check_http = Succeeds-on_error _ _ (
        Succeeds-poll healthy.patient _ _ _ _ (omega (arith, long.minute_lt)) long.bounded (
          Returns-ask _ _ (
            Returns-skip _ _ (Succeeds-check_nil _ (healthy.urls (endpoint i))) (λ u.
              Returns-call (λ env. env.response) _ _
                (λ calls.
                  rw (healthy.responds calls (Call.http_get (endpoint i) i.external_hostname))
                    Returns-read_status)))))

    Succeeds-run_checks : Succeeds env (run_checks i)
    unfolding run_checks
    Succeeds-run_checks = Succeeds-bind _ _ Succeeds-create_resources (λ a.
        Succeeds-bind _ _ (Succeeds-if _ _ _ (Succeeds-add_message _) Succeeds-check_dns_record)
          (λ b.
            Succeeds-bind _ _ (Succeeds-if _ _ _ (Succeeds-add_message _) Succeeds-check_http)
              (λ c. Succeeds-add_message _)))

    pub Succeeds-check : Succeeds env (check i)
    unfolding check
    Succeeds-check = Succeeds-bind _ _ (Succeeds-add_message _) (λ u.
        Succeeds-deferred _ _ (Succeeds-send healthy _) (
          Succeeds-deferred _ _ (Succeeds-report_clean_up _ Succeeds-clean_up_resources)
            Succeeds-run_checks))

  pub Succeeds-new_ingress :
      (checker : Checker) (no_dns_check : Bool) → Succeeds env (new_ingress checker no_dns_check)
  unfolding new_ingress
  Succeeds-new_ingress checker no_dns_check = Succeeds-bind _ _ (Succeeds-call _ _) (λ t.
      Succeeds-bind _ _ (Succeeds-generate_random_string l 5) (λ s.
        Succeeds-bind _ _ (Succeeds-announce_start healthy _) (λ a.
          Succeeds-bind _ _ (Succeeds-add_message _) (λ b. Succeeds-bind _ _ (Succeeds-ask _) (λ c.
            Succeeds-bind _ _ (Succeeds-ask _) (λ d. Succeeds-bind _ _ (Succeeds-ask _) (λ e.
              Succeeds-bind _ _ (Succeeds-on_error _ _ (Succeeds-new_k8s_clientset healthy))
                (λ f. Succeeds-pure _))))))))
