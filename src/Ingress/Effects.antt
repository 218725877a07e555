-- ===== src/Ingress/Effects.antt =====
-- What the ingress check does to the cluster.
use kibertas.Prelude.{String, Option, none, some, List, ℕ}
use kibertas.Api.{Call, Reply, answer, refused, Rr}
use kibertas.Run.{State, Env, IsLawful}
use kibertas.Run.Adds.{Adds-Since, Adds, adds_rules}
use kibertas.Run.Trace.{Since}
use kibertas.Run.Lives.{Lives, lives_rules}
use kibertas.Notify.{api_url}
use kibertas.Scope.{Within}
use kibertas.K8s.Effects.{k8s_within, k8s_lives}
use kibertas.Notify.Effects.{Adds-send}
use kibertas.Steps.Effects.{steps_adds, steps_lives}
use kibertas.Ingress.Objects.{Ingress}
use kibertas.Ingress.Check.{
  create_resources, clean_up_resources, found_address, read_records, record_available,
  check_dns_record, read_status, service_available, check_http, run_checks, check,
}

module _ {P : Call → Type 0} where
  Adds-found_address : (o : Option String) → Adds P (found_address o)
  unfolding found_address
  Adds-found_address none = search adds_rules
  Adds-found_address (some a) = search (adds_rules, steps_adds)

  pub Adds-read_records : (r : Reply (List Rr)) → Adds P (read_records r)
  unfolding read_records
  Adds-read_records (refused e) = search adds_rules
  Adds-read_records (answer rs) = Adds-found_address _

  pub Adds-read_status : (r : Reply ℕ) → Adds P (read_status r)
  unfolding read_status
  Adds-read_status (refused e) = search adds_rules
  Adds-read_status (answer code) = search (adds_rules, steps_adds)

Lives-found_address : (o : Option String) → Lives (found_address o)
unfolding found_address
Lives-found_address none = search lives_rules
Lives-found_address (some a) = search (lives_rules, steps_lives)

Lives-read_records : (r : Reply (List Rr)) → Lives (read_records r)
unfolding read_records
Lives-read_records (refused e) = search lives_rules
Lives-read_records (answer rs) = Lives-found_address _

Lives-read_status : (r : Reply ℕ) → Lives (read_status r)
unfolding read_status
Lives-read_status (refused e) = search lives_rules
Lives-read_status (answer code) = search (lives_rules, steps_lives)

module _ (i : Ingress) where
  pub create_resources-Within : Adds (Within (api_url i.chatwork) i.namespace) (create_resources i)
  unfolding create_resources
  create_resources-Within = search (adds_rules, steps_adds, k8s_within) depth 9

  pub clean_up-Within : Adds (Within (api_url i.chatwork) i.namespace) (clean_up_resources i)
  unfolding clean_up_resources
  clean_up-Within = search (adds_rules, steps_adds, k8s_within) depth 9

  pub record_available-Within : Adds (Within (api_url i.chatwork) i.namespace) (record_available i)
  unfolding record_available
  record_available-Within = search (adds_rules, Adds-read_records, tt) depth 6

  pub check_dns-Within : Adds (Within (api_url i.chatwork) i.namespace) (check_dns_record i)
  unfolding check_dns_record
  check_dns-Within = search (adds_rules, record_available-Within)

  pub service_available-Within :
      Adds (Within (api_url i.chatwork) i.namespace) (service_available i)
  unfolding service_available
  service_available-Within = search (adds_rules, Adds-read_status) depth 8

  pub check_http-Within : Adds (Within (api_url i.chatwork) i.namespace) (check_http i)
  unfolding check_http
  check_http-Within = search (adds_rules, service_available-Within)

  run_checks-Within : Adds (Within (api_url i.chatwork) i.namespace) (run_checks i)
  unfolding run_checks
  run_checks-Within =
      search (adds_rules, steps_adds, create_resources-Within, check_dns-Within, check_http-Within)
        depth 8

  pub check-Within : Adds (Within (api_url i.chatwork) i.namespace) (check i)
  unfolding check
  check-Within =
      search (adds_rules, steps_adds, Adds-send, run_checks-Within, clean_up-Within) depth 8

  pub Lives-create_resources : Lives (create_resources i)
  unfolding create_resources
  Lives-create_resources = search (lives_rules, steps_lives, k8s_lives) depth 9

  pub Lives-clean_up_resources : Lives (clean_up_resources i)
  unfolding clean_up_resources
  Lives-clean_up_resources = search (lives_rules, steps_lives, k8s_lives) depth 9

  Lives-record_available : Lives (record_available i)
  unfolding record_available
  Lives-record_available = search (lives_rules, Lives-read_records) depth 6

  Lives-check_dns_record : Lives (check_dns_record i)
  unfolding check_dns_record
  Lives-check_dns_record = search (lives_rules, Lives-record_available)

  Lives-service_available : Lives (service_available i)
  unfolding service_available
  Lives-service_available = search (lives_rules, Lives-read_status) depth 8

  Lives-check_http : Lives (check_http i)
  unfolding check_http
  Lives-check_http = search (lives_rules, Lives-service_available)

  pub Lives-run_checks : Lives (run_checks i)
  unfolding run_checks
  Lives-run_checks =
      search
        (lives_rules, steps_lives, Lives-create_resources, Lives-check_dns_record, Lives-check_http)
        depth 8

-- In a lawful environment, whatever the ingress check creates, updates or deletes, in whatever way
-- it ends, is in its own namespace, or is that namespace, and every message goes to the room of
-- its Chatwork.
ingress_in_namespace :
    (i : Ingress) (env : Env) (s : State)
    → IsLawful env
    → Since (Within (api_url i.chatwork) i.namespace) s.calls (check i env s).1.calls
ingress_in_namespace i env s l = Adds-Since (check-Within i) env l s
