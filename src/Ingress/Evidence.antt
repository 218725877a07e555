-- ===== src/Ingress/Evidence.antt =====
-- What a successful ingress check has seen.
use kibertas.Prelude.{List, Bool, false, ◌≡◌, if◌then◌else◌}
use kibertas.Run.{Action, State, ok, Env, IsLawful, ◌>>◌}
use kibertas.Api.{Call}
use kibertas.Scope.{Within}
use kibertas.Run.Seen.{Anything, Seen}
use kibertas.Run.Adds.{Adds, Adds-bind, adds_rules}
use kibertas.Run.Shows.{Seen-IsObservation, Shows, any_call, Shows-first, Shows-rest}
use kibertas.Notify.{add_message}
use kibertas.Notify.Effects.{Adds-add_message}
use kibertas.Steps.Effects.{steps_adds, Adds-or_report}
use kibertas.Steps.Shows.{Shows-or_report, Shows-cleaned, Shows-sent}
use kibertas.K8s.{new_k8s}
use kibertas.K8s.Effects.{k8s_within, create_namespace-Within}
use kibertas.K8s.Ready.{Ready, create_deployment-Ready}
use kibertas.Ingress.Effects.{
  create_resources-Within, clean_up-Within, check_dns-Within, check_http-Within,
}
use kibertas.Ingress.Objects.{Ingress, create_deployment_object}
use kibertas.Ingress.Check.{check_dns_record, check_http, create_resources, run_checks, check}
use kibertas.Ingress.Replies.{Resolved, Served, check_dns_record-Resolved, check_http-Served}

module _ (i : Ingress) where
  resources : Adds Anything (create_resources i)
  resources = any_call (create_resources-Within i)

  dns : Adds Anything (check_dns_record i)
  dns = any_call (check_dns-Within i)

  http : Adds Anything (check_http i)
  http = any_call (check_http-Within i)

  dns_part :
      Adds Anything (if i.no_dns_check then add_message "Skip Dns Check\n" else check_dns_record i)
  dns_part = search (adds_rules, Adds-add_message, dns)

  rest : Adds Anything (do
    if i.no_http_check then add_message "Skip HTTP Check\n" else check_http i
    add_message "Ingress check finished\n")
  rest = search (adds_rules, Adds-add_message, http)

-- a part that is not switched off
Shows-on :
    {env : Env} {R : List Call → List Call → Type 0} {b : Bool} (m n : Action (Unit {0}))
    → b ≡ false
    → Shows env R n
    → Shows env R (if b then m else n)
Shows-on m n off k = rw off k

module _ (i : Ingress) (env : Env) (l : IsLawful env) where
  create_resources-Ready :
      Shows env (Seen (Ready env i.namespace i.resource_name)) (create_resources i)
  unfolding create_resources new_k8s create_deployment_object
  create_resources-Ready =
      Shows-rest l Seen-IsObservation _ _
        (Adds-or_report _ _ _ (any_call (create_namespace-Within "" _)))
        (λ u.
          Shows-first l Seen-IsObservation _ _
            (Shows-or_report _ _ _ (create_deployment-Ready _ _ _ env l))
            (λ v.
              any_call {P = Within "" i.namespace} (search (adds_rules, steps_adds, k8s_within))))

  -- what the checks show is shown by `Check`
  check-Shows :
      {Q : List Call → Call → Type 0}
      → Shows env (Seen Q) (run_checks i)
      → Shows env (Seen Q) (check i)
  unfolding check
  check-Shows k = Shows-rest l Seen-IsObservation _ _ (Adds-add_message _) (λ u.
      Shows-sent l Seen-IsObservation _ _
        (Shows-cleaned l Seen-IsObservation _ _ (any_call (clean_up-Within i)) k))

  pub check-Ready : Shows env (Seen (Ready env i.namespace i.resource_name)) (check i)
  unfolding run_checks
  check-Ready = check-Shows (
      Shows-first l Seen-IsObservation _ _ create_resources-Ready
        (λ u. Adds-bind _ _ (dns_part i) (λ v. rest i)))

  pub check-Resolved : i.no_dns_check ≡ false → Shows env (Seen (Resolved env i)) (check i)
  unfolding run_checks
  check-Resolved on = check-Shows (
      Shows-rest l Seen-IsObservation _ _ (resources i) (λ u.
        Shows-first l Seen-IsObservation _ _ (Shows-on _ _ on (check_dns_record-Resolved i env l))
          (λ v. rest i)))

  pub check-Served : i.no_http_check ≡ false → Shows env (Seen (Served env i)) (check i)
  unfolding run_checks
  check-Served on = check-Shows (
      Shows-rest l Seen-IsObservation _ _ (resources i) (λ u.
        Shows-rest l Seen-IsObservation _ _ (dns_part i) (λ v.
          Shows-first l Seen-IsObservation _ _ (Shows-on _ _ on (check_http-Served i env l))
            (λ w. Adds-add_message _))))

module _ (i : Ingress) (env : Env) (s : State) {t : State} where
  -- In a lawful environment, an ingress check that returns no error has, since it began, read its
  -- deployment with every replica ready.
  deployment-Seen :
      IsLawful env
      → check i env s ≡ (ok tt, t)
      → Seen (Ready env i.namespace i.resource_name) s.calls t.calls
  deployment-Seen l h = (check-Ready i env l).at s h

  -- In a lawful environment, an ingress check that does not skip the DNS check and returns no
  -- error has been answered, since it began, records for the external host name among which is an
  -- address.
  pub address-Seen :
      IsLawful env
      → i.no_dns_check ≡ false
      → check i env s ≡ (ok tt, t)
      → Seen (Resolved env i) s.calls t.calls
  address-Seen l on h = (check-Resolved i env l on).at s h

  -- In a lawful environment, an ingress check that does not skip the HTTP check and returns no
  -- error has been answered, since it began, the status 200 at its endpoint.
  pub status-Seen :
      IsLawful env
      → i.no_http_check ≡ false
      → check i env s ≡ (ok tt, t)
      → Seen (Served env i) s.calls t.calls
  status-Seen l on h = (check-Served i env l on).at s h
