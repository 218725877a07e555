-- ===== src/Fluent/Cleared.antt =====
-- Outside debug mode the fluent check leaves nothing in the cluster.
use kibertas.Steps.Plan.{tidied}
use kibertas.Prelude.{Bool, ap, ◌∙◌, false, ◌≡◌, refl}
use kibertas.Run.{Env, IsLawful}
use kibertas.Run.Adds.{Adds, adds_rules}
use kibertas.Run.Left.{Idle, Clears, Clears-bind, Clears-deferred, Adds-Clears}
use kibertas.Notify.Effects.{Adds-add_message}
use kibertas.Steps.Effects.{Adds-report_nodes}
use kibertas.Steps.Cleared.{AreDeleted, end, then, Clears-cleaned, Clears-send}
use kibertas.Fluent.Objects.{Fluent}
use kibertas.Fluent.Owns.{things, checked-Owned}
use kibertas.Fluent.Check.{list_nodes, run_checks, set_replicas, check}
use kibertas.Fluent.CleanUp.{deletions, clean_up_resources_lem, Lives-checked}

deletions-AreDeleted : (f : Fluent) → AreDeleted (deletions f) (things f)
unfolding deletions
deletions-AreDeleted f = then refl (then refl end)

list_nodes-Idle : Adds Idle list_nodes
unfolding list_nodes
list_nodes-Idle = search (adds_rules, tt) depth 6

run_checks-Clears :
    (f : Fluent) (env : Env) → IsLawful env → f.debug ≡ false → Clears env (run_checks f)
unfolding run_checks
run_checks-Clears f env l mode =
    Clears-cleaned _ _ l (deletions-AreDeleted f)
      (λ s. clean_up_resources_lem f env s ∙ ap (λ (b : Bool). tidied b (deletions f) env s) mode)
      (checked-Owned f) (Lives-checked f)

pub check-Clears : (f : Fluent) (env : Env) → IsLawful env → f.debug ≡ false → Clears env (check f)
unfolding check set_replicas
check-Clears f env l mode = Clears-bind _ _ (Adds-Clears l (Adds-add_message _)) (λ u.
    Clears-deferred _ _ (Clears-send l _) (
      Clears-bind _ _ (Adds-Clears l (Adds-report_nodes _ list_nodes-Idle)) (λ nodes.
        Clears-bind _ _ (Adds-Clears l (Adds-add_message _))
          (λ v. run_checks-Clears (set_replicas f nodes) env l mode))))
