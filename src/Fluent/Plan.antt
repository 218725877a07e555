-- ===== src/Fluent/Plan.antt =====
-- The plan of a fluent check, and that the check carries it out.
use kibertas.Prelude.{Bool, ap, ◌∙◌, String, ◌<>◌, List, [], ◌∷◌, ◌++◌, ◌≡◌, refl, false}
use kibertas.Go.Format.{decimal}
use kibertas.Run.{State, Env, IsLawful, ◌>>=◌}
use kibertas.Notify.{add_message}
use kibertas.Api.{Call}
use kibertas.Steps.CleanUp.{cleaned, reported, issued, calls_reported}
use kibertas.Steps.Plan.{Plan, tidied, worked, counted, worked_lem, counted_lem}
use kibertas.Fluent.Objects.{Fluent}
use kibertas.Fluent.Check.{
  clean_up_resources, list_nodes, replicas_for, set_replicas, run_checks, check,
}
use kibertas.Fluent.Effects.{Lives-run_checks}
use kibertas.Fluent.CleanUp.{clean_up_resources_lem, deletions, checked, Lives-checked}

abbrev pub plan : Fluent → Plan
plan f = record {
  chatwork = f.chatwork;
  debug = f.debug;
  deletions = deletions f;
  work = checked f;
}

run_checks-worked :
    (f : Fluent) (env : Env)
    → IsLawful env
    → (s : State) → run_checks f env s ≡ worked (plan f) env s
unfolding run_checks
run_checks-worked f env l s =
    worked_lem (plan f) (clean_up_resources f) (Lives-checked f) env l
      (clean_up_resources_lem f env) s

-- The message about the nodes.
abbrev pub announced : Fluent → List String → String
announced f nodes =
    f.resource_name <> (" replica counts: " <> (decimal (replicas_for nodes) <> "\n"))

-- The state of a run when `Check` has announced itself.
abbrev pub started : State → State
started s = record s { messages = s.messages ++ "fluent check start\n" ∷ [] }

-- In a lawful environment, the fluent check announces itself and lists the spot nodes. If they
-- cannot be listed, it reports that, sends the messages and returns this error. Otherwise it
-- announces the replicas for these nodes and carries out the plan for them: it creates its
-- resources and waits for the logs; however that ends, it says in debug mode that it deletes
-- nothing, and otherwise does what a clean-up of the deployment and the namespace promises; it
-- reports an error of that, and sends the messages; and it returns what the work returned. A
-- message without a response is a panic.
pub fluent_planned :
    (f : Fluent) (env : Env) (s : State)
    → IsLawful env
    → check f env s
      ≡ counted f.chatwork "eks.amazonaws.com/capacityType=SPOT"
          (λ nodes. plan (set_replicas f nodes))
          (announced f)
          env
          (started s)
unfolding check list_nodes set_replicas add_message ◌>>=◌
fluent_planned f env s l =
    counted_lem "eks.amazonaws.com/capacityType=SPOT" (announced f)
      (λ nodes. plan (set_replicas f nodes)) (λ nodes. run_checks (set_replicas f nodes)) env
      f.chatwork l (λ nodes. refl) (λ nodes. run_checks-worked (set_replicas f nodes) env l)
      (λ nodes. Lives-run_checks (set_replicas f nodes)) (started s)

-- In a lawful environment and outside debug mode, however creation and wait end, the deployment
-- and then the namespace are deleted, both whatever the first answers, an error of that is
-- reported, and the result is that of the steps before.
fluent_cleaned_up :
    (f : Fluent) (env : Env) (s : State)
    → IsLawful env
    → f.debug ≡ false
    → let (r, s1) = checked f env s in
      let s2 = reported (cleaned env s1 (deletions f)) in
      (run_checks f env s ≡ (r, s2))
      × (s2.calls
          ≡ Call.delete_namespace f.namespace
            ∷ Call.delete_deployment f.namespace f.resource_name
            ∷ s1.calls)
unfolding deletions issued
fluent_cleaned_up f env s l h =
    let (r, s1) = checked f env s in
    (
      run_checks-worked f env l s
          ∙ ap (λ (b : Bool). (r, reported (tidied b (deletions f) env s1))) h,
      calls_reported env s1 (deletions f),
    )
