-- ===== src/Ingress/Cleared.antt =====
-- Outside debug mode the ingress check leaves nothing in the cluster.
use kibertas.Steps.Plan.{tidied}
use kibertas.Prelude.{Bool, ap, ◌∙◌, false, ◌≡◌, refl}
use kibertas.Run.{Env, IsLawful}
use kibertas.Run.Left.{Clears, Clears-bind, Clears-deferred, Adds-Clears}
use kibertas.Notify.Effects.{Adds-add_message}
use kibertas.Steps.Cleared.{AreDeleted, end, then, Clears-cleaned, Clears-send}
use kibertas.Ingress.Objects.{Ingress}
use kibertas.Ingress.Owns.{things, run_checks-Owned}
use kibertas.Ingress.Check.{check}
use kibertas.Ingress.CleanUp.{deletions, clean_up_resources_lem}
use kibertas.Ingress.Effects.{Lives-run_checks}

deletions-AreDeleted : (i : Ingress) → AreDeleted (deletions i) (things i)
unfolding deletions
deletions-AreDeleted i = then refl (then refl (then refl (then refl end)))

pub check-Clears : (i : Ingress) (env : Env) → IsLawful env → i.debug ≡ false → Clears env (check i)
unfolding check
check-Clears i env l mode = Clears-bind _ _ (Adds-Clears l (Adds-add_message _)) (λ u.
    Clears-deferred _ _ (Clears-send l _) (
      Clears-cleaned _ _ l (deletions-AreDeleted i)
        (λ s. clean_up_resources_lem i env s ∙ ap (λ (b : Bool). tidied b (deletions i) env s) mode)
        (run_checks-Owned i) (Lives-run_checks i)))
