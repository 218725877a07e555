-- ===== src/Ingress/Check.antt =====
-- The methods of `Ingress` that act: `Check`, and what it calls.
use kibertas.Prelude.{
  ℕ, ◌*◌, String, ◌<>◌, Bool, true, false, Option, none, some, List, [], ◌∷◌, text_or, ◌==◌,
  if◌then◌else◌,
}
use kibertas.Go.Errors.{wrapped}
use kibertas.Api.{Call, Reply, answer, refused, Rr, a_record, other_record}
use kibertas.Run.{Action, pure, throw, ◌>>=◌, ◌>>◌, on_error, deferred, ask, call, check_nil, poll}
use kibertas.Notify.{add_message, send}
use kibertas.K8s
use kibertas.K8s.{second, new_k8s}
use kibertas.Steps.{or_report, attempt, error_or_nil, report_clean_up}
use kibertas.Ingress.Objects.{
  Ingress, create_deployment_object, create_service_object, create_ingress_object,
}

unfoldable pub create_resources : Ingress → Action (Unit {0})
unfolding new_k8s
create_resources i = do
  let k = new_k8s i.namespace
  or_report "Error Create Namespace: " "\n" (K8s.create_namespace i.namespace)
  or_report "Error Create Deployment: " "\n"
      (K8s.create_deployment k (create_deployment_object i) i.timeout)
  or_report "Error Create Service: " "\n" (K8s.create_service k (create_service_object i))
  or_report "Error Create Ingress: " "\n" (K8s.create_ingress k (create_ingress_object i) i.timeout)

unfoldable pub clean_up_resources : Ingress → Action (Unit {0})
unfolding new_k8s
clean_up_resources i = if i.debug then add_message "Skip Delete Resources\n" else do
  let k = new_k8s i.namespace
  r ← attempt "Error Delete Ingress: " "\n" (K8s.delete_ingress k i.resource_name) []
  r ← attempt "Error Delete Service: " "\n" (K8s.delete_service k i.resource_name) r
  r ← attempt "Error Delete Deployment: " "\n" (K8s.delete_deployment k i.resource_name) r
  r ← attempt "Error Delete Namespace: " "\n" (K8s.delete_namespace k) r
  error_or_nil r

-- The first address among the records of an answer.
unfoldable pub first_address : List Rr → Option String
first_address [] = none
first_address (a_record a ∷ rs) = some a
first_address (other_record ∷ rs) = first_address rs

unfoldable pub found_address : Option String → Action Bool
found_address none = pure false
found_address (some a) = do add_message ("Record is available: " <> (a <> "\n")); pure true

unfoldable pub read_records : Reply (List Rr) → Action Bool
unfolding first_address found_address
read_records (refused e) = pure false
read_records (answer rs) = found_address (first_address rs)

-- The condition of `checkDNSRecord`.
unfoldable pub record_available : Ingress → Action Bool
unfolding read_records
record_available i = do
  name ← ask (λ env. env.fqdn i.external_hostname)
  reply ← call (λ env. env.records) (Call.exchange name "8.8.8.8:53")
  read_records reply

unfoldable pub check_dns_record : Ingress → Action (Unit {0})
unfolding poll record_available
check_dns_record i =
    on_error (poll (30 * second) i.timeout false (record_available i))
      (λ e. throw (wrapped "waiting for DNS Record to be ready: " e))

unfoldable pub read_status : Reply ℕ → Action Bool
read_status (refused e) = pure false
read_status (answer code) =
    if code == 200 then (do add_message "HTTP Status Code is 200\n"; pure true) else pure false

abbrev pub endpoint : Ingress → String
endpoint i = text_or i.http_check_endpoint ("http://" <> (i.external_hostname <> "/"))

-- The condition of `checkHTTP`.
unfoldable pub service_available : Ingress → Action Bool
unfolding read_status
service_available i = do
  bad ← ask (λ env. env.bad_url (endpoint i))
  check_nil bad
  reply ← call (λ env. env.response) (Call.http_get (endpoint i) i.external_hostname)
  read_status reply

unfoldable pub check_http : Ingress → Action (Unit {0})
unfolding poll service_available
check_http i =
    on_error (poll (10 * second) i.timeout false (service_available i))
      (λ e. throw (wrapped "waiting for HTTP service to be ready: " e))

-- `Check`, behind its deferred calls.
unfoldable pub run_checks : Ingress → Action (Unit {0})
run_checks i = do
  create_resources i
  if i.no_dns_check then add_message "Skip Dns Check\n" else check_dns_record i
  if i.no_http_check then add_message "Skip HTTP Check\n" else check_http i
  add_message "Ingress check finished\n"

unfoldable pub check : Ingress → Action (Unit {0})
check i = do
  add_message "Ingress check start\n"
  deferred (send i.chatwork) (deferred (report_clean_up (clean_up_resources i)) (run_checks i))
