-- ===== src/Tests/Ingress.antt =====
-- Runs of the ingress check.
use kibertas.Prelude.{true, false, some, [], ◌∷◌, ◌≡◌, refl}
use kibertas.Go.Errors.{library}
use kibertas.Api.{Call}
use kibertas.Run.{State, ok, fail, Env, IsLawful, ◌>>=◌}
use kibertas.Run.Seen.{Seen}
use kibertas.Notify.{add_message, send, send_request}
use kibertas.Steps.{or_report, attempt, error_or_nil, report_clean_up}
use kibertas.K8s.{
  create_namespace, create_deployment, create_service, create_ingress, delete_ingress,
  delete_service, delete_deployment, delete_namespace,
}
use kibertas.Steps.CleanUp.{cleaned, reported}
use kibertas.Ingress.Objects.{
  Ingress, create_deployment_object, create_service_object, create_ingress_object,
}
use kibertas.Ingress.Check.{
  create_resources, clean_up_resources, check_dns_record, check_http, run_checks, check,
}
use kibertas.Ingress.Wiring.{routes, reaches, owns_its_pods, objects_connect}
use kibertas.Ingress.CleanUp.{deletions, started}
use kibertas.Steps.Plan.{carried_out}
use kibertas.Ingress.Plan.{plan, ingress_planned, calls_at_end}
use kibertas.Ingress.Replies.{Resolved, Served}
use kibertas.Ingress.Evidence.{address-Seen, status-Seen}
use kibertas.Tests.World.{calm, calm-IsLawful, start, chatwork, checker}

abbrev site : Ingress
site = record {
  checker = checker;
  namespace = "ns";
  no_dns_check = false;
  no_http_check = false;
  ingress_class_name = "alb";
  resource_name = "sample";
  external_hostname = "example.local";
  http_check_endpoint = "";
}

abbrev ended : State
ended = (check site calm start).1

succeeds : check site calm start ≡ (ok tt, ended)
unfolding check run_checks create_resources clean_up_resources ◌>>=◌ add_message or_report
    create_namespace create_deployment create_service create_ingress create_ingress_object
    check_dns_record check_http report_clean_up attempt delete_ingress delete_service
    delete_deployment delete_namespace error_or_nil send
succeeds = refl

address-Seen_example : Seen (Resolved calm site) [] ended.calls
address-Seen_example = address-Seen site calm start calm-IsLawful refl succeeds

status-Seen_example : Seen (Served calm site) [] ended.calls
status-Seen_example = status-Seen site calm start calm-IsLawful refl succeeds

objects_connect_example :
    (routes (create_ingress_object site) "example.local" (create_service_object site) ≡ true)
    × (reaches (create_service_object site) (create_deployment_object site) ≡ true)
    × (owns_its_pods (create_deployment_object site) ≡ true)
objects_connect_example = objects_connect site

-- every deletion is refused
abbrev stuck : Env
stuck = record calm {
  issue = λ calls c. some (library 2 "forbidden");
  is_already_exists = λ e. true;
}

stuck-IsLawful : IsLawful stuck
stuck-IsLawful = record {
  polls = calm-IsLawful.polls;
  no_errors = refl;
  some_errors = calm-IsLawful.some_errors;
  intn_lt = calm-IsLawful.intn_lt;
}

abbrev checked_stuck : State
checked_stuck = (run_checks site stuck (started start)).1

ingress_planned_example : check site stuck start ≡ carried_out (plan site) stuck (started start)
ingress_planned_example = ingress_planned site stuck start stuck-IsLawful

calls_at_end_example : (check site stuck start).1 ≡ record {
  messages = [];
  calls =
      Call.post_message
        (send_request chatwork (reported (cleaned stuck checked_stuck (deletions site))).messages)
      ∷ Call.delete_namespace "ns"
      ∷ Call.delete_deployment "ns" "sample"
      ∷ Call.delete_service "ns" "sample"
      ∷ Call.delete_ingress "ns" "sample"
      ∷ checked_stuck.calls;
}
calls_at_end_example = calls_at_end site stuck start stuck-IsLawful refl refl

-- the namespace cannot be created, and that is the error that the check returns
stuck_fails : (check site stuck start).0 ≡ fail (library 2 "forbidden")
unfolding check run_checks create_resources clean_up_resources ◌>>=◌ add_message or_report
    create_namespace create_deployment create_service create_ingress create_ingress_object
    check_dns_record check_http report_clean_up attempt delete_ingress delete_service
    delete_deployment delete_namespace error_or_nil send
stuck_fails = refl
