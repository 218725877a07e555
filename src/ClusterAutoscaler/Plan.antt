-- ===== src/ClusterAutoscaler/Plan.antt =====
-- The plan of a cluster-autoscaler check, and that the check carries it out.
use kibertas.Prelude.{Bool, ap, ◌∙◌, length, String, ◌<>◌, List, [], ◌∷◌, ◌++◌, ◌≡◌, false}
use kibertas.Go.Format.{decimal}
use kibertas.Run.{State, Env, IsLawful}
use kibertas.Api.{Call}
use kibertas.Steps.CleanUp.{cleaned, reported, issued, calls_reported}
use kibertas.Steps.Plan.{Plan, tidied, worked, worked_lem}
use kibertas.ClusterAutoscaler.Objects.{ClusterAutoscaler}
use kibertas.ClusterAutoscaler.Check.{clean_up_resources, node_label, run_checks}
use kibertas.ClusterAutoscaler.CleanUp.{clean_up_resources_lem, deletions, checked, Lives-checked}

abbrev pub plan : ClusterAutoscaler → Plan
plan c = record {
  chatwork = c.chatwork;
  debug = c.debug;
  deletions = deletions c;
  work = checked c;
}

run_checks-worked :
    (c : ClusterAutoscaler) (env : Env)
    → IsLawful env
    → (s : State) → run_checks c env s ≡ worked (plan c) env s
unfolding run_checks
run_checks-worked c env l s =
    worked_lem (plan c) (clean_up_resources c) (Lives-checked c) env l
      (clean_up_resources_lem c env) s

-- The message about the nodes.
abbrev pub announced : ClusterAutoscaler → List String → String
announced c nodes =
    "Nodes(have label: " <> (node_label c <> ("): " <> (decimal (length nodes) <> "\n")))

-- The state of a run when `Check` has announced itself.
abbrev pub started : State → State
started s = record s { messages = s.messages ++ "cluster-autoscaler check start\n" ∷ [] }

-- In a lawful environment and outside debug mode, however the creation ends, the deployment and
-- then the namespace are deleted, both whatever the first answers, an error of that is reported,
-- and the result is that of the steps before.
cluster_autoscaler_cleaned_up :
    (c : ClusterAutoscaler) (env : Env) (s : State)
    → IsLawful env
    → c.debug ≡ false
    → let (r, s1) = checked c env s in
      let s2 = reported (cleaned env s1 (deletions c)) in
      (run_checks c env s ≡ (r, s2))
      × (s2.calls
          ≡ Call.delete_namespace c.namespace
            ∷ Call.delete_deployment c.namespace c.resource_name
            ∷ s1.calls)
unfolding deletions issued
cluster_autoscaler_cleaned_up c env s l h =
    let (r, s1) = checked c env s in
    (
      run_checks-worked c env l s
          ∙ ap (λ (b : Bool). (r, reported (tidied b (deletions c) env s1))) h,
      calls_reported env s1 (deletions c),
    )
