-- ===== src/ClusterAutoscaler/Cleared.antt =====
-- Outside debug mode the cluster-autoscaler check leaves nothing in the cluster.
use kibertas.Steps.Plan.{tidied}
use kibertas.Prelude.{Bool, ap, ◌∙◌, false, ◌≡◌, refl}
use kibertas.Run.{Env, IsLawful}
use kibertas.Run.Adds.{Adds, adds_rules}
use kibertas.Run.Left.{Idle, Clears, Clears-bind, Clears-deferred, Adds-Clears}
use kibertas.Notify.Effects.{Adds-add_message}
use kibertas.Steps.Effects.{Adds-report_nodes}
use kibertas.Steps.Cleared.{AreDeleted, end, then, Clears-cleaned, Clears-send}
use kibertas.ClusterAutoscaler.Objects.{ClusterAutoscaler}
use kibertas.ClusterAutoscaler.Owns.{things, create_resources-Owned}
use kibertas.ClusterAutoscaler.Check.{list_nodes, run_checks, set_replicas, check}
use kibertas.ClusterAutoscaler.CleanUp.{deletions, clean_up_resources_lem}
use kibertas.ClusterAutoscaler.Effects.{Lives-create_resources}

deletions-AreDeleted : (c : ClusterAutoscaler) → AreDeleted (deletions c) (things c)
unfolding deletions
deletions-AreDeleted c = then refl (then refl end)

list_nodes-Idle : (c : ClusterAutoscaler) → Adds Idle (list_nodes c)
unfolding list_nodes
list_nodes-Idle c = search (adds_rules, tt) depth 6

run_checks-Clears :
    (c : ClusterAutoscaler) (env : Env) → IsLawful env → c.debug ≡ false → Clears env (run_checks c)
unfolding run_checks
run_checks-Clears c env l mode =
    Clears-cleaned _ _ l (deletions-AreDeleted c)
      (λ s. clean_up_resources_lem c env s ∙ ap (λ (b : Bool). tidied b (deletions c) env s) mode)
      (create_resources-Owned c) (Lives-create_resources c)

pub check-Clears :
    (c : ClusterAutoscaler) (env : Env) → IsLawful env → c.debug ≡ false → Clears env (check c)
unfolding check set_replicas
check-Clears c env l mode = Clears-bind _ _ (Adds-Clears l (Adds-add_message _)) (λ u.
    Clears-deferred _ _ (Clears-send l _) (
      Clears-bind _ _ (Adds-Clears l (Adds-report_nodes _ (list_nodes-Idle c))) (λ nodes.
        Clears-bind _ _ (Adds-Clears l (Adds-add_message _))
          (λ v. run_checks-Clears (set_replicas c nodes) env l mode))))
