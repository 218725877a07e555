-- ===== src/Ingress/Plan.antt =====
-- The plan of an ingress check, and that the check carries it out.
use kibertas.Prelude.{Bool, none, false, List, [], ◌∷◌, ◌∙◌, ap, ◌≡◌}
use kibertas.Run.{State, Env, IsLawful, ◌>>=◌}
use kibertas.Notify.{add_message, api_url, send_request}
use kibertas.Notify.Effects.{calls_sent}
use kibertas.Api.{Call}
use kibertas.Steps.Guarded.{notified}
use kibertas.Steps.CleanUp.{cleaned, reported, issued, calls_reported}
use kibertas.Steps.Plan.{Plan, tidied, carried_out, carried_out_lem}
use kibertas.Ingress.Objects.{Ingress}
use kibertas.Ingress.Check.{clean_up_resources, run_checks, check}
use kibertas.Ingress.Effects.{Lives-clean_up_resources, Lives-run_checks}
use kibertas.Ingress.CleanUp.{deletions, started, clean_up_resources_lem}

abbrev pub plan : Ingress → Plan
plan i = record {
  chatwork = i.chatwork;
  debug = i.debug;
  deletions = deletions i;
  work = run_checks i;
}

-- In a lawful environment, the ingress check carries out its plan from where it announced itself:
-- it runs its checks; however they end, it says in debug mode that it deletes nothing, and
-- otherwise does what a clean-up of its four objects promises; it reports an error of that, and
-- sends the messages; and it returns what the checks returned, unless the message has no response,
-- which is a panic.
pub ingress_planned :
    (i : Ingress) (env : Env) (s : State)
    → IsLawful env
    → check i env s ≡ carried_out (plan i) env (started s)
unfolding check add_message ◌>>=◌
ingress_planned i env s l =
    carried_out_lem (plan i) (clean_up_resources i) (Lives-run_checks i) env l
      (clean_up_resources_lem i env) (Lives-clean_up_resources i) (started s)

-- In a lawful environment, outside debug mode and if the URL of the message is well-formed, an
-- ingress check ends with no message left and with the deletions of the ingress, the service, the
-- deployment and the namespace, all four in this order after the calls of the checks, and then the
-- message.
pub calls_at_end :
    (i : Ingress) (env : Env) (s : State)
    → IsLawful env
    → i.debug ≡ false
    → env.bad_url (api_url i.chatwork) ≡ none
    → let s1 = (run_checks i env (started s)).1 in
      let s2 = reported (cleaned env s1 (deletions i)) in
      (check i env s).1 ≡ record {
        messages = [];
        calls =
            Call.post_message (send_request i.chatwork s2.messages)
            ∷ Call.delete_namespace i.namespace
            ∷ Call.delete_deployment i.namespace i.resource_name
            ∷ Call.delete_service i.namespace i.resource_name
            ∷ Call.delete_ingress i.namespace i.resource_name
            ∷ s1.calls;
      }
unfolding deletions issued
calls_at_end i env s l h u =
    let s1 = (run_checks i env (started s)).1 in
    let s2 = reported (cleaned env s1 (deletions i)) in
    let e : check i env s ≡ notified env i.chatwork (run_checks i env (started s)).0 s2 =
      ingress_planned i env s l
      ∙ ap
          (λ (b : Bool).
            notified env i.chatwork (run_checks i env (started s)).0
              (reported (tidied b (deletions i) env s1)))
          h in
    ap (λ p. p.1) e
    ∙ ap (λ (cs : List Call). record { messages = []; calls = cs })
        (calls_sent env i.chatwork s2 u
          ∙ ap (λ (cs : List Call). Call.post_message (send_request i.chatwork s2.messages) ∷ cs)
              (calls_reported env s1 (deletions i)))
